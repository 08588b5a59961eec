-- ===== src/Did/Paths.antt =====
-- Paths as lists of names, and what strchr and strrchr find in them.
use time_capsule_mount.Prelude.{
  ◌≡◌, refl, ap, ◌∙◌, sym, false, none, some, List, [], ◌∷◌, ◌++◌, ◌⊎◌, inl, inr, CString, ◌==◌,
  if◌then◌else◌, arith, length, All, length-append, ◌≤◌, append_assoc, append-nil,
}
use time_capsule_mount.Did.Lookup.{slash, strchr, strrchr}

-- No slash in a name.
abbrev pub IsName : CString → Type 0
IsName = All (λ c. (c == slash) ≡ false)

-- "/a/b" for the names "a" and "b".
unfoldable pub path_of : List CString → CString
path_of [] = []
path_of (c ∷ cs) = slash ∷ (c ++ path_of cs)

-- The names of a path, with what stands before the first slash.
unfoldable pub names : CString → CString × List CString
names [] = ([], [])
names (x ∷ s) = let (c, cs) = names s in if x == slash then ([], c ∷ cs) else (x ∷ c, cs)

pub strchr-name : (c r : CString) → IsName c → strchr (c ++ slash ∷ r) ≡ some (c, r)
unfolding strchr
strchr-name [] r n = refl
strchr-name (x ∷ c) r n = ground (arith, strchr-name c r n.1)

pub strchr-none : (c : CString) → IsName c → strchr c ≡ none
unfolding strchr
strchr-none [] n = refl
strchr-none (x ∷ c) n = ground (arith, strchr-none c n.1)

strrchr-none : (c : CString) → IsName c → strrchr c ≡ none
unfolding strrchr
strrchr-none [] n = refl
strrchr-none (x ∷ c) n = ground (arith, strrchr-none c n.1)

pub strrchr-name : (p c : CString) → IsName c → strrchr (p ++ slash ∷ c) ≡ some (p, c)
unfolding strrchr
strrchr-name [] c n = ground (arith, strrchr-none c n)
strrchr-name (x ∷ p) c n = ground (arith, strrchr-name p c n)

names-append :
    (c : CString) (cs : List CString) → IsName c → All IsName cs → names (c ++ path_of cs) ≡ (c, cs)
unfolding names path_of
names-append [] [] n a = refl
names-append [] (d ∷ cs) n a = ground (arith, names-append d cs a.0 a.1)
names-append (x ∷ c) cs n a = ground (arith, names-append c cs n.1 a)

pub names-path_of : (cs : List CString) → All IsName cs → names (path_of cs) ≡ ([], cs)
names-path_of cs a = names-append [] cs tt a

pub path_of-append : (xs ys : List CString) → path_of (xs ++ ys) ≡ path_of xs ++ path_of ys
unfolding path_of
path_of-append [] ys = refl
path_of-append (x ∷ xs) ys =
    ap (◌∷◌ slash)
      (ap (◌++◌ x) (path_of-append xs ys) ∙ sym (append_assoc x (path_of xs) (path_of ys)))

pub path_of-snoc :
    (xs : List CString) (y : CString) → path_of (xs ++ y ∷ []) ≡ path_of xs ++ slash ∷ y
unfolding path_of
path_of-snoc xs y = path_of-append xs (y ∷ []) ∙ ap (λ z. path_of xs ++ slash ∷ z) (append-nil y)

pub snoc_cases {ℓ} :
    {A : Type ℓ} (xs : List A) → (xs ≡ []) ⊎ ((ys : List A) × (y : A) × (xs ≡ ys ++ y ∷ []))
snoc_cases [] = inl refl
snoc_cases (x ∷ xs) = elim (snoc_cases xs) [
  | inl e ↦ inr ([], x, ap (◌∷◌ x) e)
  | inr (ys, y, e) ↦ inr (x ∷ ys, y, ap (◌∷◌ x) e)
]

pub length-le-path_of : (cs : List CString) → length cs ≤ length (path_of cs)
unfolding path_of
length-le-path_of [] = omega arith
length-le-path_of (c ∷ cs) = omega (arith, length-append c (path_of cs), length-le-path_of cs)
