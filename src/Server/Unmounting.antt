-- ===== src/Server/Unmounting.antt =====
-- afp_unmount_all_volumes of lib/afp.c unmounts every volume, and removes the server behind the last.
use time_capsule_mount.Prelude.{
  ℕ, ◌+◌, ◌≡◌, refl, sym, ap, ◌∙◌, true, false, ◌||◌, List, [], ◌∷◌, ◌++◌, append_assoc, map, pos,
  inl, inr, length, length-append, All, arith, Bool-cases,
}
use time_capsule_mount.Server.Volumes.{
  Mounted, is_unmounted, is_mounted, AfpVolume, Call, Mounts, something_is_mounted, unmount_from,
  afp_unmount_all_volumes,
}
use time_capsule_mount.Server.Rounds.{
  IsSettled, any_mounted, down, unmount_calls, put, AreUnmounted, AreUnmounted-snoc, mounted-append,
  settled-mounted, removed, done, round_down, round_up, round_last, unchanged,
}

settled_down :
    (m : Mounted)
    → (is_unmounted m || is_mounted m) ≡ true
    → is_mounted m ≡ false
    → is_unmounted m ≡ true
settled_down Mounted.unmounted h e = refl
settled_down Mounted.mounted h e = cc
settled_down Mounted.unmounting h e = cc

down-unmounted : (v : AfpVolume) → IsSettled v → is_unmounted (down v).state ≡ true
down-unmounted v h = elim (Bool-cases (is_mounted v.state)) [
  | inl e ↦ rw e refl
  | inr e ↦ rw e (settled_down v.state h e)
]

none_left :
    (i : ℕ) (vs : List AfpVolume) (calls : List Call)
    → any_mounted vs ≡ false
    → (map down vs ≡ vs) × unmount_calls i vs calls ≡ calls
none_left i [] calls h = (refl, refl)
none_left i (v ∷ vs) calls h = elim (Bool-cases (is_mounted v.state)) [
  | inl e ↦ cc
  | inr e ↦
      let (same, calls') = none_left (i + 1) vs calls (sym (ap (λ b. b || any_mounted vs) e) ∙ h) in
      (rw e (ap (◌∷◌ v) same), rw e calls')
]

-- What the loop leaves behind: the volumes down, the calls for each, and the server removed.
abbrev all_down : (i : ℕ) (pre vs : List AfpVolume) → Mounts → Mounts
all_down i pre vs s = removed (put (pre ++ map down vs) (unmount_calls i vs s.calls) s)

more_left :
    (pre vs : List AfpVolume) (v : AfpVolume)
    → AreUnmounted pre
    → All IsSettled (v ∷ vs)
    → something_is_mounted (pre ++ down v ∷ vs) ≡ any_mounted vs
unfolding something_is_mounted
more_left pre vs v down_before settled =
    mounted-append pre (down v ∷ vs) down_before
    ∙ rw (down-unmounted v settled.0) (settled-mounted vs settled.1)

abbrev Unmounts : (vs : List AfpVolume) (i : ℕ) (pre : List AfpVolume) → Mounts → Type 0
Unmounts vs i pre s =
    i ≡ length pre
    → s.volumes ≡ pre ++ vs
    → AreUnmounted pre
    → All IsSettled vs
    → any_mounted vs ≡ true
    → unmount_from (length vs) i s ≡ (pos 1, all_down i pre vs s)

-- The next round starts behind v.
unmount_from-next :
    (v : AfpVolume) (vs : List AfpVolume) (i : ℕ) (pre : List AfpVolume) (s : Mounts)
    → Unmounts vs (i + 1) (pre ++ down v ∷ []) (done i pre vs v s)
    → i ≡ length pre
    → AreUnmounted pre
    → All IsSettled (v ∷ vs)
    → any_mounted vs ≡ true
    → unmount_from (length vs) (i + 1) (done i pre vs v s) ≡ (pos 1, all_down i pre (v ∷ vs) s)
unmount_from-next v vs i pre s next place down_before settled more =
    next (omega (arith, place, length-append pre (down v ∷ [])))
      (sym (append_assoc pre (down v ∷ []) vs))
      (AreUnmounted-snoc pre (down v) down_before (down-unmounted v settled.0)) settled.1 more
    ∙ ap (λ us. (pos 1, removed (put us (unmount_calls i (v ∷ vs) s.calls) s)))
        (append_assoc pre (down v ∷ []) (map down vs))

nothing_left :
    (v : AfpVolume) (vs : List AfpVolume) (i : ℕ) (pre : List AfpVolume) (s : Mounts)
    → any_mounted vs ≡ false
    → done i pre vs v s ≡ put (pre ++ map down (v ∷ vs)) (unmount_calls i (v ∷ vs) s.calls) s
nothing_left v vs i pre s last =
    let (same, calls) = none_left (i + 1) vs (unmount_calls i (v ∷ []) s.calls) last in
    ap (λ us. put (pre ++ down v ∷ us) (unmount_calls i (v ∷ []) s.calls) s) (sym same)
    ∙ ap (λ cs. put (pre ++ down v ∷ map down vs) cs s) (sym calls)

unmount_from-down :
    (vs : List AfpVolume) (i : ℕ) (pre : List AfpVolume) (s : Mounts) → Unmounts vs i pre s
unmount_from-down [] i pre s place here down_before settled some_left = cc
unmount_from-down (v ∷ vs) i pre s place here down_before settled some_left =
    let left : something_is_mounted (pre ++ down v ∷ vs) ≡ any_mounted vs =
      more_left pre vs v down_before settled in
    let next : any_mounted vs ≡ true
        → unmount_from (length vs) (i + 1) (done i pre vs v s)
          ≡ (pos 1, all_down i pre (v ∷ vs) s) =
      unmount_from-next v vs i pre s
        (unmount_from-down vs (i + 1) (pre ++ down v ∷ []) (done i pre vs v s)) place down_before
        settled in
    elim (Bool-cases (is_mounted v.state)) [
      | inl e ↦ elim (Bool-cases (any_mounted vs)) [
        | inl more ↦ round_up (length vs) i pre vs v s place here e (left ∙ more) ∙ next more
        | inr last ↦
            round_last (length vs) i pre vs v s place here e (left ∙ last)
            ∙ ap (λ m. (pos 1, removed m)) (nothing_left v vs i pre s last)
      ]
      | inr e ↦
          round_down (length vs) i pre vs v s place here e
          ∙ ap (unmount_from (length vs) (i + 1)) (unchanged (length vs) i pre vs v s place here e)
          ∙ next (sym (ap (λ b. b || any_mounted vs) e) ∙ some_left)
    ]

-- With at least one volume mounted and no volume in another thread's hands, afp_unmount_all_volumes
-- unmounts each mounted volume once and in order, with its files flushed and closed, logs out of the
-- server and removes it after the last, leaves no volume mounted, and returns 1.
pub afp_unmount_all_volumes-down :
    (s : Mounts)
    → All IsSettled s.volumes
    → any_mounted s.volumes ≡ true
    → afp_unmount_all_volumes s ≡ (
      pos 1,
      record s {
        volumes = map down s.volumes;
        calls = Call.server_remove ∷ Call.logout ∷ unmount_calls 0 s.volumes s.calls;
      },
    )
unfolding afp_unmount_all_volumes
afp_unmount_all_volumes-down s settled some_left =
    unmount_from-down s.volumes 0 [] s refl refl tt settled some_left
