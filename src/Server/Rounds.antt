-- ===== src/Server/Rounds.antt =====
-- A round of the loop of afp_unmount_all_volumes of lib/afp.c.
use time_capsule_mount.Prelude.{
  ℕ, suc, ◌+◌, ◌≡◌, refl, ap, ◌∙◌, Bool, true, false, not, ◌||◌, some, List, [], ◌∷◌, ◌++◌, pos,
  neg, ℤ, is_set, if◌then◌else◌, length, All,
}
use time_capsule_mount.Server.Volumes.{
  Mounted, is_unmounted, is_mounted, AfpVolume, Call, Mounts, something_is_mounted, get_volume,
  set_volume, closed, unmount, after_unmount, afp_unmount_volume, unmount_from,
}

-- No other thread is unmounting the volume.
abbrev pub IsSettled : AfpVolume → Type 0
IsSettled v = (is_unmounted v.state || is_mounted v.state) ≡ true

abbrev pub any_mounted : List AfpVolume → Bool
any_mounted [] = false
any_mounted (v ∷ vs) = is_mounted v.state || any_mounted vs

-- A volume that is mounted no more.
abbrev pub down : AfpVolume → AfpVolume
down v = if is_mounted v.state then record v { state = Mounted.unmounted; dtrefnum = 0 } else v

-- Each volume that is mounted is flushed, its cache is freed, its forks are closed, its desktop database
-- is closed if it is open, and the client is told.
abbrev pub unmount_calls : ℕ → List AfpVolume → List Call → List Call
unmount_calls i [] calls = calls
unmount_calls i (v ∷ vs) calls = unmount_calls (i + 1) vs (
    if is_mounted v.state
    then Call.client_unmount i
      ∷ closed v.dtrefnum (Call.remove_forks i ∷ Call.free_did_cache i ∷ Call.flush i ∷ calls)
    else calls)

abbrev pub put : List AfpVolume → List Call → Mounts → Mounts
put volumes calls s = record s { volumes = volumes; calls = calls }

get-append :
    (pre : List AfpVolume) (v : AfpVolume) (vs : List AfpVolume)
    → get_volume (pre ++ v ∷ vs) (length pre) ≡ some v
get-append [] v vs = refl
get-append (u ∷ pre) v vs = get-append pre v vs

set-append :
    (pre : List AfpVolume) (v w : AfpVolume) (vs : List AfpVolume)
    → set_volume (pre ++ v ∷ vs) (length pre) w ≡ pre ++ w ∷ vs
set-append [] v w vs = refl
set-append (u ∷ pre) v w vs = ap (◌∷◌ u) (set-append pre v w vs)

-- No volume before the loop's place is mounted.
abbrev pub AreUnmounted : List AfpVolume → Type 0
AreUnmounted = All λ v. is_unmounted v.state ≡ true

pub AreUnmounted-snoc :
    (pre : List AfpVolume) (v : AfpVolume)
    → AreUnmounted pre
    → is_unmounted v.state ≡ true
    → AreUnmounted (pre ++ v ∷ [])
AreUnmounted-snoc [] v h hv = (hv, tt)
AreUnmounted-snoc (u ∷ pre) v h hv = (h.0, AreUnmounted-snoc pre v h.1 hv)

pub mounted-append :
    (pre vs : List AfpVolume)
    → AreUnmounted pre
    → something_is_mounted (pre ++ vs) ≡ something_is_mounted vs
unfolding something_is_mounted
mounted-append [] vs h = refl
mounted-append (u ∷ pre) vs h = rw (h.0) (mounted-append pre vs h.1)

settled_state :
    (m : Mounted) → (is_unmounted m || is_mounted m) ≡ true → not (is_unmounted m) ≡ is_mounted m
settled_state Mounted.unmounted h = refl
settled_state Mounted.mounted h = refl
settled_state Mounted.unmounting h = cc

pub settled-mounted :
    (vs : List AfpVolume) → All IsSettled vs → something_is_mounted vs ≡ any_mounted vs
unfolding something_is_mounted
settled-mounted [] h = refl
settled-mounted (v ∷ vs) h = rw (settled_state v.state h.0, settled-mounted vs h.1) refl

after-more : (s : Mounts) → something_is_mounted s.volumes ≡ true → after_unmount s ≡ (pos 0, s)
unfolding after_unmount
after-more s h = rw (h, after_unmount) refl

abbrev pub removed : Mounts → Mounts
removed s = record s { calls = Call.server_remove ∷ Call.logout ∷ s.calls }

after-last :
    (s : Mounts) → something_is_mounted s.volumes ≡ false → after_unmount s ≡ (neg 1, removed s)
unfolding after_unmount
after-last s h = rw (h, after_unmount) refl

-- What the loop does with the result of afp_unmount_volume.
abbrev next_of : (count i : ℕ) → ℤ × Mounts → ℤ × Mounts
next_of count i r = elim (is_set r.0) [
  | true ↦ (pos 1, r.1)
  | false ↦ unmount_from count (i + 1) r.1
]

-- The state behind a round.
abbrev pub done : (i : ℕ) (pre vs : List AfpVolume) → AfpVolume → Mounts → Mounts
done i pre vs v s = put (pre ++ down v ∷ vs) (unmount_calls i (v ∷ []) s.calls) s

-- A round of the loop, at the volume v with `pre` before it.
module _ (count i : ℕ) (pre vs : List AfpVolume) (v : AfpVolume) (s : Mounts)
    (place : i ≡ length pre) (here : s.volumes ≡ pre ++ v ∷ vs) where
  found : get_volume s.volumes i ≡ some v
  found =
      ap (get_volume s.volumes) place
      ∙ ap (λ us. get_volume us (length pre)) here
      ∙ get-append pre v vs

  pub round_down :
      is_mounted v.state ≡ false → unmount_from (suc count) i s ≡ unmount_from count (i + 1) s
  unfolding unmount_from
  round_down e = rw (found, unmount_from) (rw (e) refl)

  round_call :
      is_mounted v.state ≡ true
      → unmount_from (suc count) i s ≡ next_of count i (afp_unmount_volume i s)
  unfolding unmount_from
  round_call e = rw (found, unmount_from) (rw (e) refl)

  call : is_mounted v.state ≡ true → afp_unmount_volume i s ≡ after_unmount (unmount i v s)
  unfolding afp_unmount_volume
  call e = rw (found, afp_unmount_volume) (rw (e) refl)

  pub unchanged : is_mounted v.state ≡ false → s ≡ done i pre vs v s
  unchanged e = rw e (ap (λ us. record s { volumes = us }) here)

  unmount-done : is_mounted v.state ≡ true → unmount i v s ≡ done i pre vs v s
  unfolding unmount
  unmount-done e =
      let w : AfpVolume = record v { state = Mounted.unmounted; dtrefnum = 0 } in
      rw e (
        ap (λ us. record (unmount i v s) { volumes = us })
          (ap (λ us. set_volume us i w) here
            ∙ ap (λ j. set_volume (pre ++ v ∷ vs) j w) place
            ∙ set-append pre v w vs))

  pub round_up :
      is_mounted v.state ≡ true
      → something_is_mounted (pre ++ down v ∷ vs) ≡ true
      → unmount_from (suc count) i s ≡ unmount_from count (i + 1) (done i pre vs v s)
  round_up e more =
      round_call e
      ∙ ap (next_of count i)
          (call e ∙ ap after_unmount (unmount-done e) ∙ after-more (done i pre vs v s) more)

  pub round_last :
      is_mounted v.state ≡ true
      → something_is_mounted (pre ++ down v ∷ vs) ≡ false
      → unmount_from (suc count) i s ≡ (pos 1, removed (done i pre vs v s))
  round_last e last =
      round_call e
      ∙ ap (next_of count i)
          (call e ∙ ap after_unmount (unmount-done e) ∙ after-last (done i pre vs v s) last)
