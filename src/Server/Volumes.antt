-- ===== src/Server/Volumes.antt =====
-- The volumes of a server: something_is_mounted, afp_unmount_volume and afp_unmount_all_volumes of
-- lib/afp.c. The calls of other files are listed.
use time_capsule_mount.Prelude.{
  ℕ, zero, suc, ◌+◌, Bool, true, false, not, ◌||◌, Option, none, some, List, [], ◌∷◌, ℤ, pos, neg,
  is_set, ◌==◌, if◌then◌else◌, length,
}

pub data Mounted : Type 0 where
  unmounted mounted unmounting : Mounted

abbrev pub is_unmounted : Mounted → Bool
is_unmounted Mounted.unmounted = true
is_unmounted _ = false

abbrev pub is_mounted : Mounted → Bool
is_mounted Mounted.mounted = true
is_mounted _ = false

-- The fields of struct afp_volume that are used here.
pub record AfpVolume : Type 0 where
  pub state : Mounted
  pub dtrefnum : ℕ

-- The calls, by the place of the volume in the server.
pub data Call : Type 0 where
  -- afp_flush, free_entire_did_cache, remove_fork_list, libafpclient->unmount_volume
  flush free_did_cache remove_forks client_unmount : (volume : ℕ) → Call
  closedt : (dtrefnum : ℕ) → Call
  logout server_remove : Call

-- The volumes of a server, and the calls, newest first.
pub record Mounts : Type 0 where
  pub volumes : List AfpVolume
  pub calls : List Call

unfoldable pub something_is_mounted : List AfpVolume → Bool
something_is_mounted [] = false
something_is_mounted (v ∷ vs) = not (is_unmounted v.state) || something_is_mounted vs

abbrev pub get_volume : List AfpVolume → ℕ → Option AfpVolume
get_volume [] i = none
get_volume (v ∷ vs) zero = some v
get_volume (v ∷ vs) (suc i) = get_volume vs i

abbrev pub set_volume : List AfpVolume → ℕ → AfpVolume → List AfpVolume
set_volume [] i w = []
set_volume (v ∷ vs) zero w = w ∷ vs
set_volume (v ∷ vs) (suc i) w = v ∷ set_volume vs i w

abbrev pub closed : ℕ → List Call → List Call
closed dtrefnum calls = if dtrefnum == 0 then calls else Call.closedt dtrefnum ∷ calls

-- The part of afp_unmount_volume up to AFP_VOLUME_UNMOUNTED, for the volume at i.
unfoldable pub unmount : ℕ → AfpVolume → Mounts → Mounts
unmount i v s = record s {
  volumes = set_volume s.volumes i (record v { state = Mounted.unmounted; dtrefnum = 0 });
  calls =
      Call.client_unmount i
      ∷ closed v.dtrefnum (Call.remove_forks i ∷ Call.free_did_cache i ∷ Call.flush i ∷ s.calls);
}

-- The rest: where nothing is mounted any more the server is removed and freed, and -1 is returned.
unfoldable pub after_unmount : Mounts → ℤ × Mounts
unfolding something_is_mounted
after_unmount s =
    if something_is_mounted s.volumes
    then (pos 0, s)
    else (neg 1, record s { calls = Call.server_remove ∷ Call.logout ∷ s.calls })

unfoldable pub afp_unmount_volume : ℕ → Mounts → ℤ × Mounts
unfolding unmount after_unmount
afp_unmount_volume i s = elim (get_volume s.volumes i) [
  | none ↦ (neg 1, s)
  | some v ↦ if is_mounted v.state then after_unmount (unmount i v s) else (neg 1, s)
]

-- The loop of afp_unmount_all_volumes, from the volume i on, for `count` volumes.
unfoldable pub unmount_from : (count i : ℕ) → Mounts → ℤ × Mounts
unfolding afp_unmount_volume
unmount_from zero i s = (pos 0, s)
unmount_from (suc count) i s = elim (get_volume s.volumes i) [
  | none ↦ (pos 0, s)
  | some v ↦ elim (is_mounted v.state) [
    | false ↦ unmount_from count (i + 1) s
    | true ↦
        let (ret, s') = afp_unmount_volume i s in
        elim (is_set ret) [ true ↦ (pos 1, s') | false ↦ unmount_from count (i + 1) s' ]
  ]
]

unfoldable pub afp_unmount_all_volumes : Mounts → ℤ × Mounts
unfolding unmount_from
afp_unmount_all_volumes s = unmount_from (length s.volumes) 0 s
