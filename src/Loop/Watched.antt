-- ===== src/Loop/Watched.antt =====
-- The descriptors of lib/loop.c against an abstract set: each call of add_fd and rm_fd adds or removes
-- one element.
use time_capsule_mount.Prelude.{
  ℕ, zero, suc, ◌+◌, ◌-◌, ◌≤◌, ◌<◌, ◌≡◌, refl, sym, ◌∙◌, Bool, true, false, not, ◌&&◌, ◌||◌, inl,
  inr, none, some, List, [], ◌∷◌, ◌==◌, arith, Option-cases, Bool-cases,
}
use time_capsule_mount.Loop.Descriptors.{
  Descriptors, no_descriptors, add_fd, highest, rm_fd, is_selected,
}

pub data Call : Type 0 where
  add rm : ℕ → Call

-- The calls, newest first.
unfoldable pub after : List Call → Descriptors
after [] = no_descriptors
after (Call.add fd ∷ cs) = add_fd fd (after cs)
after (Call.rm fd ∷ cs) = rm_fd fd (after cs)

-- The abstract set: the latest call for a descriptor decides.
unfoldable pub is_watched : List Call → ℕ → Bool
is_watched [] i = false
is_watched (Call.add fd ∷ cs) i = i == fd || is_watched cs i
is_watched (Call.rm fd ∷ cs) i = not (i == fd) && is_watched cs i

highest-none : (set : ℕ → Bool) (n i : ℕ) → highest set n ≡ none → i ≤ n → set i ≡ false
unfolding highest
highest-none set zero zero e h = ground arith
highest-none set zero (suc i) e h = absurd (omega arith)
highest-none set (suc n) i e h = elim (Bool-cases (i == suc n)) [
  | inl same ↦ ground arith
  | inr other ↦ highest-none set n i (ground arith) (ground arith)
]

highest-some :
    (set : ℕ → Bool) (n k : ℕ)
    → highest set n ≡ some k
    → (set k ≡ true) × ((i : ℕ) → i ≤ n → set i ≡ true → i ≤ k)
unfolding highest
highest-some set zero k e = (ground arith, λ i h t. omega arith)
highest-some set (suc n) k e = elim (Bool-cases (set (suc n))) [
  | inl found ↦ (ground arith, λ i h t. ground arith)
  | inr below ↦
      let r = highest-some set n k (ground arith) in
      (
        r.0,
        λ i h t. elim (Bool-cases (i == suc n)) [
          | inl same ↦ ground arith
          | inr other ↦ r.1 i (ground arith) t
        ],
      )
]

-- Every descriptor that is set is below max_fd.
abbrev pub IsBound : Descriptors → Type 0
IsBound d = (i : ℕ) → d.rds i ≡ true → i < d.max_fd

pub add_fd-IsBound : (fd : ℕ) (d : Descriptors) → IsBound d → IsBound (add_fd fd d)
unfolding add_fd
add_fd-IsBound fd d b i h = elim (Bool-cases (i == fd)) [
  | inl same ↦ ground arith
  | inr other ↦ ground (arith, b i)
]

pub rm_fd-rds : (fd : ℕ) (d : Descriptors) (i : ℕ) → (rm_fd fd d).rds i ≡ (not (i == fd) && d.rds i)
unfolding rm_fd
rm_fd-rds fd d i = refl

-- rm_fd never drops a descriptor that is set, and max_fd stands right above the highest one.
rm_fd-highest :
    (fd : ℕ) (d : Descriptors) (i : ℕ)
    → IsBound d
    → (rm_fd fd d).rds i ≡ true
    → (i < (rm_fd fd d).max_fd) × ((rm_fd fd d).rds ((rm_fd fd d).max_fd - 1) ≡ true)
unfolding rm_fd
rm_fd-highest fd d i b h = elim (Option-cases (highest rds d.max_fd)) [
  | inl e ↦ absurd (ground (arith, highest-none rds d.max_fd i e, b i))
  | inr (k, e) ↦
      ground (arith, highest-some rds d.max_fd k e, (highest-some rds d.max_fd k e).1 i, b i)
]
  where
    rds : ℕ → Bool
    rds j = not (j == fd) && d.rds j

pub rm_fd-IsBound : (fd : ℕ) (d : Descriptors) → IsBound d → IsBound (rm_fd fd d)
unfolding rm_fd
rm_fd-IsBound fd d b i h = (rm_fd-highest fd d i b h).0

rm_fd_empty :
    (fd : ℕ) (d : Descriptors)
    → ((i : ℕ) → (rm_fd fd d).rds i ≡ false)
    → (rm_fd fd d).max_fd ≡ d.max_fd + 1
unfolding rm_fd
rm_fd_empty fd d h = elim (Option-cases (highest rds d.max_fd)) [
  | inl e ↦ ground arith
  | inr (k, e) ↦ absurd (ground (arith, highest-some rds d.max_fd k e, h k))
]
  where
    rds : ℕ → Bool
    rds j = not (j == fd) && d.rds j

after-IsBound : (cs : List Call) → IsBound (after cs)
unfolding after
after-IsBound [] i h = ground arith
after-IsBound (Call.add fd ∷ cs) i h = add_fd-IsBound fd (after cs) (after-IsBound cs) i h
after-IsBound (Call.rm fd ∷ cs) i h = rm_fd-IsBound fd (after cs) (after-IsBound cs) i h

after-rds : (cs : List Call) (i : ℕ) → (after cs).rds i ≡ is_watched cs i
unfolding after is_watched add_fd rm_fd
after-rds [] i = refl
after-rds (Call.add fd ∷ cs) i = rw (after-rds cs i)
after-rds (Call.rm fd ∷ cs) i = rw (after-rds cs i)

-- After any calls of add_fd and rm_fd, pselect looks at exactly the descriptors whose latest call was
-- an add_fd.
pub is_selected-watched : (cs : List Call) (i : ℕ) → is_selected (after cs) i ≡ is_watched cs i
is_selected-watched cs i = ground (arith, after-rds cs i, after-IsBound cs i)

-- After a call of rm_fd that leaves a descriptor watched, max_fd stands right above one that is watched.
pub max_fd-rm_fd :
    (fd : ℕ) (cs : List Call) (i : ℕ)
    → is_watched (Call.rm fd ∷ cs) i ≡ true
    → is_watched (Call.rm fd ∷ cs) ((after (Call.rm fd ∷ cs)).max_fd - 1) ≡ true
unfolding after
max_fd-rm_fd fd cs i h =
    sym (after-rds (Call.rm fd ∷ cs) _)
    ∙ (rm_fd-highest fd (after cs) i (after-IsBound cs) (after-rds (Call.rm fd ∷ cs) i ∙ h)).1

-- A call of rm_fd after which no descriptor is watched raises max_fd by one.
pub max_fd-rm_fd_empty :
    (fd : ℕ) (cs : List Call)
    → ((i : ℕ) → is_watched (Call.rm fd ∷ cs) i ≡ false)
    → (after (Call.rm fd ∷ cs)).max_fd ≡ (after cs).max_fd + 1
unfolding after
max_fd-rm_fd_empty fd cs none_set =
    rm_fd_empty fd (after cs) (λ i. after-rds (Call.rm fd ∷ cs) i ∙ none_set i)
