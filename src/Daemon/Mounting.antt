-- ===== src/Daemon/Mounting.antt =====
-- Finding a volume to mount or to unmount: mount_volume and process_unmount of fuse/commands.c, and
-- find_volume_by_name of lib/afp.c.
use time_capsule_mount.Prelude.{
  ℕ, ◌+◌, Bool, false, ◌&&◌, Option, none, some, List, [], ◌∷◌, CString, str_eq, is_set, ◌==◌,
  if◌then◌else◌, length, take, ◌⊎◌, inl, inr,
}
use time_capsule_mount.Server.Volumes.{is_mounted, get_volume, Mounts, afp_unmount_volume}
use time_capsule_mount.Server.Opening.{Answer, Opening, afp_connect_volume}
use time_capsule_mount.Volume.Names.{convert_utf8pre_to_utf8dec}

-- The fields of struct afp_volume beside those of AfpVolume: `has_password` is the flag HasPassword.
pub record Offered : Type 0 where
  pub volume_name_printable : CString
  pub mountpoint : CString
  pub has_password : Bool
  pub volpassword : CString

-- AFP_VOLUME_NAME_LEN
abbrev pub volume_name_len : ℕ
volume_name_len = 33

-- The first volume with that name from the place i on, with its place.
unfoldable pub named_from : (i : ℕ) → CString → List Offered → Option (ℕ × Offered)
named_from i name [] = none
named_from i name (v ∷ vs) =
    let rest = named_from (i + 1) name vs in
    if str_eq name v.volume_name_printable then some (i, v) else rest

unfoldable pub find_volume_by_name : List Offered → (volname : CString) → Option (ℕ × Offered)
unfolding named_from
find_volume_by_name volumes volname =
    named_from 0 (convert_utf8pre_to_utf8dec volname volume_name_len) volumes

-- What mount_volume says where it fails.
pub data Refusal : Type 0 where
  no_such_volume already_mounted password_needed could_not_mount : Refusal

abbrev pub is_mounted_at : ℕ → Mounts → Bool
is_mounted_at i m = elim (get_volume m.volumes i) [ none ↦ false | some v ↦ is_mounted v.state ]

-- AFP_VOLPASS_LEN bytes are copied; without the flag the password is cleared.
abbrev pub with_password : CString → Offered → Offered
with_password volpassword v = record v {
  volpassword = if v.has_password then take 8 volpassword else [];
}

-- The volume that is to be opened, with its password, or why there is none.
unfoldable pub choose_volume :
    List Offered → (volname volpassword : CString) → Mounts → Refusal ⊎ (ℕ × Offered)
choose_volume volumes volname volpassword m = elim (find_volume_by_name volumes volname) [
  | none ↦ inl Refusal.no_such_volume
  | some (i, v) ↦
      if is_mounted_at i m
      then inl Refusal.already_mounted
      else (if v.has_password && length volpassword == 0
          then inl Refusal.password_needed
          else inr (i, with_password volpassword v))
]

-- volopen is afp_connect_volume; `answer` is what the server answers to the opening, from the volume
-- with its password.
unfoldable pub mount_volume :
    (answer : Offered → Answer)
    → (av_number : ℕ) → (is_netatalk : Bool) → List Offered
    → (volname volpassword : CString) → Opening
    → (Refusal ⊎ ℕ) × Opening
mount_volume answer av_number is_netatalk volumes volname volpassword s =
    elim (choose_volume volumes volname volpassword s.mounts) [
      | inl why ↦ (inl why, s)
      | inr (i, v) ↦
          let (ret, s') = afp_connect_volume i av_number is_netatalk (answer v) s in
          (if is_set ret then inl Refusal.could_not_mount else inr i, s')
    ]

-- A server in the list, with its volumes.
pub record Peer : Type 0 where
  pub volumes : List Offered
  pub mounts : Mounts

-- AFP_SERVER_RESULT_OKAY and AFP_SERVER_RESULT_ERROR
abbrev pub result_okay : ℕ
result_okay = 1

abbrev pub result_error : ℕ
result_error = 2

-- The place of the first volume with that mountpoint from i on.
unfoldable pub mounted_on : (i : ℕ) → (mountpoint : CString) → List Offered → Option ℕ
mounted_on i mountpoint [] = none
mounted_on i mountpoint (v ∷ vs) =
    let rest = mounted_on (i + 1) mountpoint vs in
    if str_eq v.mountpoint mountpoint then some i else rest

-- The result, the servers in the list, and the server that was removed from it and freed, if one was.
pub record Unmounting : Type 0 where
  pub result : ℕ
  pub servers : List Peer
  pub removed : Option Peer

-- A server that is passed over stays in front of the others.
abbrev pub passed : Peer → Unmounting → Unmounting
passed p r = record r { servers = p ∷ r.servers }

-- afp_unmount_volume returns -1 for a mounted volume where it was the last one: then it has removed the
-- server from the list and freed it.
unfoldable pub unmounted_at : ℕ → Peer → List Peer → Unmounting
unmounted_at j p ps =
    let (ret, mounts) = afp_unmount_volume j p.mounts in
    let p' = record p { mounts = mounts } in
    if is_set ret
    then record { result = result_okay; servers = ps; removed = some p' }
    else record { result = result_okay; servers = p' ∷ ps; removed = none }

-- The search over the servers, the test and the unmounting.
unfoldable pub process_unmount : (mountpoint : CString) → List Peer → Unmounting
unfolding mounted_on unmounted_at
process_unmount mountpoint [] = record { result = result_error; servers = []; removed = none }
process_unmount mountpoint (p ∷ ps) =
    let rest = process_unmount mountpoint ps in
    elim (mounted_on 0 mountpoint p.volumes) [
      | none ↦ passed p rest
      | some j ↦
          if is_mounted_at j p.mounts
          then unmounted_at j p ps
          else record { result = result_error; servers = p ∷ ps; removed = none }
    ]
