-- ===== src/Daemon/Unmounting.antt =====
-- What the command to unmount does to the servers: process_unmount of fuse/commands.c.
use time_capsule_mount.Prelude.{
  ℕ, ◌+◌, ◌≡◌, refl, ap, subst, true, false, none, some, List, [], ◌∷◌, ◌++◌, CString, Bool-cases,
  Option-cases, inl, inr, All, str_eq, length, arith, pos, neg, ◌⊎◌,
}
use time_capsule_mount.Server.Volumes.{
  Mounts, after_unmount, unmount, something_is_mounted, get_volume, is_mounted, afp_unmount_volume,
}
use time_capsule_mount.Daemon.Mounting.{
  Offered, Peer, is_mounted_at, mounted_on, Unmounting, passed, unmounted_at, process_unmount,
  result_okay, result_error,
}

abbrev pub IsElsewhere : CString → Offered → Type 0
IsElsewhere mountpoint v = str_eq v.mountpoint mountpoint ≡ false

-- The volume at j is the first of the volumes whose mountpoint is the given one.
abbrev pub IsFirst : CString → List Offered → ℕ → Type 0
IsFirst mountpoint volumes j =
    (before after : List Offered) × (v : Offered) × (volumes ≡ before ++ v ∷ after)
    × (length before ≡ j)
    × All (IsElsewhere mountpoint) before
    × (str_eq v.mountpoint mountpoint ≡ true)

mounted_on-none :
    (i : ℕ) (mountpoint : CString) (vs : List Offered)
    → mounted_on i mountpoint vs ≡ none
    → All (IsElsewhere mountpoint) vs
unfolding mounted_on
mounted_on-none i mountpoint [] e = tt
mounted_on-none i mountpoint (v ∷ vs) e = elim (Bool-cases (str_eq v.mountpoint mountpoint)) [
  | inl hit ↦ absurd (ground arith)
  | inr miss ↦ (miss, mounted_on-none (i + 1) mountpoint vs (ground arith))
]

mounted_on-some :
    (i j : ℕ) (mountpoint : CString) (vs : List Offered)
    → mounted_on i mountpoint vs ≡ some j
    → (k : ℕ) × (j ≡ i + k) × IsFirst mountpoint vs k
unfolding mounted_on
mounted_on-some i j mountpoint [] e = cc
mounted_on-some i j mountpoint (v ∷ vs) e = elim (Bool-cases (str_eq v.mountpoint mountpoint)) [
  | inl hit ↦ (0, ground arith, ([], vs, v, refl, refl, tt, hit))
  | inr miss ↦
      let (k, at, first) = mounted_on-some (i + 1) j mountpoint vs (ground arith) in
      let (before, after, w, vs', l, all, hit) = first in
      (
        k + 1,
        omega (arith, at),
        (v ∷ before, after, w, ap (◌∷◌ v) vs', omega (arith, l), (miss, all), hit),
      )
]

mounted_on-IsFirst :
    (j : ℕ) (mountpoint : CString) (vs : List Offered)
    → mounted_on 0 mountpoint vs ≡ some j
    → IsFirst mountpoint vs j
mounted_on-IsFirst j mountpoint vs e =
    let (k, at, first) = mounted_on-some 0 j mountpoint vs e in
    let same : k ≡ j = omega (arith, at) in subst (IsFirst mountpoint vs) same first

-- No volume of the server has the mountpoint.
abbrev pub IsPassed : CString → Peer → Type 0
IsPassed mountpoint p = All (IsElsewhere mountpoint) p.volumes

-- What is left of the server p in front of `after` when its volume at j is unmounted: the server, with
-- some volume still mounted; or nothing, as it was the last one and the server is removed and freed.
abbrev pub Leaves : ℕ → Peer → List Peer → (before : List Peer) → Unmounting → Type 0
Leaves j p after before r =
    let p' = record p { mounts = (afp_unmount_volume j p.mounts).1 } in
    ((something_is_mounted p'.mounts.volumes ≡ true)
      × (r.removed ≡ none)
      × (r.servers ≡ before ++ p' ∷ after))
    ⊎ ((something_is_mounted p'.mounts.volumes ≡ false)
        × (r.removed ≡ some p')
        × (r.servers ≡ before ++ after))

-- Nothing changes, as no volume has the mountpoint or the first that has it is not mounted; or the first
-- volume with the mountpoint is mounted, and is unmounted.
pub data Unmounts (mountpoint : CString) (servers : List Peer) : Unmounting → Type 0 where
  nowhere :
      {r : Unmounting}
      → All (IsPassed mountpoint) servers
      → r ≡ record { result = result_error; servers = servers; removed = none }
      → Unmounts mountpoint servers r
  not_mounted :
      {r : Unmounting} (before after : List Peer) (p : Peer) (j : ℕ)
      → All (IsPassed mountpoint) before
      → servers ≡ before ++ p ∷ after
      → IsFirst mountpoint p.volumes j
      → is_mounted_at j p.mounts ≡ false
      → r ≡ record { result = result_error; servers = servers; removed = none }
      → Unmounts mountpoint servers r
  unmounted :
      {r : Unmounting} (before after : List Peer) (p : Peer) (j : ℕ)
      → All (IsPassed mountpoint) before
      → servers ≡ before ++ p ∷ after
      → IsFirst mountpoint p.volumes j
      → is_mounted_at j p.mounts ≡ true
      → r.result ≡ result_okay
      → Leaves j p after before r
      → Unmounts mountpoint servers r

behind-Leaves :
    (j : ℕ) (p q : Peer) (after before : List Peer) (r : Unmounting)
    → Leaves j q after before r
    → Leaves j q after (p ∷ before) (passed p r)
behind-Leaves j p q after before r (inl (m, gone, at)) = inl (m, gone, ap (◌∷◌ p) at)
behind-Leaves j p q after before r (inr (m, gone, at)) = inr (m, gone, ap (◌∷◌ p) at)

behind-Unmounts :
    (mountpoint : CString) (p : Peer) (ps : List Peer) (r : Unmounting)
    → IsPassed mountpoint p
    → Unmounts mountpoint ps r
    → Unmounts mountpoint (p ∷ ps) (passed p r)
behind-Unmounts mountpoint p ps r e (nowhere all same) = nowhere (e, all) (ap (passed p) same)
behind-Unmounts mountpoint p ps r e (not_mounted before after q j all at found m same) =
    not_mounted (p ∷ before) after q j (e, all) (ap (◌∷◌ p) at) found m (ap (passed p) same)
behind-Unmounts mountpoint p ps r e (unmounted before after q j all at found m okay left) =
    unmounted (p ∷ before) after q j (e, all) (ap (◌∷◌ p) at) found m okay
      (behind-Leaves j p q after before r left)

after_unmount-cases :
    (m : Mounts)
    → ((something_is_mounted (after_unmount m).1.volumes ≡ true) × ((after_unmount m).0 ≡ pos 0))
      ⊎ ((something_is_mounted (after_unmount m).1.volumes ≡ false) × ((after_unmount m).0 ≡ neg 1))
unfolding after_unmount
after_unmount-cases m = elim (Bool-cases (something_is_mounted m.volumes)) [
  | inl up ↦ rw (up, after_unmount) (inl (up, refl))
  | inr down ↦ rw (down, after_unmount) (inr (down, refl))
]

afp_unmount_volume-cases :
    (j : ℕ) (m : Mounts)
    → is_mounted_at j m ≡ true
    → ((something_is_mounted (afp_unmount_volume j m).1.volumes ≡ true)
        × ((afp_unmount_volume j m).0 ≡ pos 0))
      ⊎ ((something_is_mounted (afp_unmount_volume j m).1.volumes ≡ false)
          × ((afp_unmount_volume j m).0 ≡ neg 1))
unfolding afp_unmount_volume
afp_unmount_volume-cases j m h = elim (Option-cases (get_volume m.volumes j)) [
  | inl e ↦ absurd (ground arith)
  | inr (v, e) ↦
      let up : is_mounted v.state ≡ true = ground arith in
      rw (e, afp_unmount_volume) (rw up (after_unmount-cases (unmount j v m)))
]

unmounted_at-Leaves :
    (j : ℕ) (p : Peer) (ps : List Peer)
    → is_mounted_at j p.mounts ≡ true
    → ((unmounted_at j p ps).result ≡ result_okay) × Leaves j p ps [] (unmounted_at j p ps)
unfolding unmounted_at
unmounted_at-Leaves j p ps h = elim (afp_unmount_volume-cases j p.mounts h) [
  | inl (up, ret) ↦ rw (ret, unmounted_at) (refl, inl (up, refl, refl))
  | inr (down, ret) ↦ rw (ret, unmounted_at) (refl, inr (down, refl, refl))
]

-- The servers are searched in their order for a volume with the mountpoint. Where the first one is
-- mounted, it is unmounted, no other server changes and the result is AFP_SERVER_RESULT_OKAY; its
-- server stays if it has another volume that is not unmounted, and is removed from the list and freed if
-- not. Where the first one is not mounted, or there is none, nothing changes and the result is
-- AFP_SERVER_RESULT_ERROR.
pub process_unmount-Unmounts :
    (mountpoint : CString) (servers : List Peer)
    → Unmounts mountpoint servers (process_unmount mountpoint servers)
unfolding process_unmount
process_unmount-Unmounts mountpoint [] = nowhere tt refl
process_unmount-Unmounts mountpoint (p ∷ ps) =
    elim (Option-cases (mounted_on 0 mountpoint p.volumes)) [
      | inl e ↦
          rw (e, process_unmount)
            (behind-Unmounts mountpoint p ps (process_unmount mountpoint ps)
              (mounted_on-none 0 mountpoint p.volumes e) (process_unmount-Unmounts mountpoint ps))
      | inr (j, e) ↦
          let first = mounted_on-IsFirst j mountpoint p.volumes e in
          elim (Bool-cases (is_mounted_at j p.mounts)) [
            | inl m ↦
                let (okay, left) = unmounted_at-Leaves j p ps m in
                rw (e, process_unmount, m) (unmounted [] ps p j tt refl first m okay left)
            | inr m ↦ rw (e, process_unmount, m) (not_mounted [] ps p j tt refl first m refl)
          ]
    ]
