-- ===== src/Url/Splitting.antt =====
-- Where the searches of lib/afp_url.c cut a string that is put together from parts.
use time_capsule_mount.Prelude.{
  ℕ, ◌≡◌, refl, true, false, none, some, [], ◌∷◌, ◌++◌, CString, ◌==◌, All, arith, length,
}
use time_capsule_mount.Url.Strings.{
  strchr, strip_prefix, strstr, is_digit, digits, skip_spaces, strtol,
}
use time_capsule_mount.Url.Escapes.{undoubled, strrchr, unescaped}
use time_capsule_mount.Url.Parse.{up_to}

-- The character stands nowhere in the string.
abbrev pub Lacks : ℕ → CString → Type 0
Lacks c = All λ x. (x == c) ≡ false

module _ (c : ℕ) where
  pub strchr-found : (s t : CString) → Lacks c s → strchr c (s ++ c ∷ t) ≡ some (s, t)
  unfolding strchr
  strchr-found [] t h = ground arith
  strchr-found (x ∷ s) t h = ground (arith, strchr-found s t h.1)

  pub strchr-none : (s : CString) → Lacks c s → strchr c s ≡ none
  unfolding strchr
  strchr-none [] h = refl
  strchr-none (x ∷ s) h = ground (arith, strchr-none s h.1)

  pub up_to-found : (s t : CString) → Lacks c s → up_to c (s ++ c ∷ t) ≡ (s, c ∷ t)
  unfolding up_to
  up_to-found [] t h = ground arith
  up_to-found (x ∷ s) t h = ground (arith, up_to-found s t h.1)

  pub up_to-all : (s : CString) → Lacks c s → up_to c s ≡ (s, [])
  unfolding up_to
  up_to-all [] h = refl
  up_to-all (x ∷ s) h = ground (arith, up_to-all s h.1)

  pub undoubled-found :
      (s : CString) (y : ℕ) (t : CString)
      → Lacks c s
      → (y == c) ≡ false
      → undoubled c (s ++ c ∷ y ∷ t) ≡ some (s, y ∷ t)
  unfolding undoubled
  undoubled-found [] y t h d = ground arith
  undoubled-found (x ∷ []) y t h d = ground arith
  undoubled-found (x ∷ z ∷ s) y t h d = ground (arith, undoubled-found (z ∷ s) y t h.1 d)

  pub undoubled-none : (s : CString) → Lacks c s → undoubled c s ≡ none
  unfolding undoubled
  undoubled-none [] h = refl
  undoubled-none (x ∷ []) h = ground arith
  undoubled-none (x ∷ z ∷ s) h = ground (arith, undoubled-none (z ∷ s) h.1)

  pub strrchr-none : (s : CString) → Lacks c s → strrchr c s ≡ none
  unfolding strrchr
  strrchr-none [] h = refl
  strrchr-none (x ∷ s) h = ground (arith, strrchr-none s h.1)

  pub strrchr-found : (s t : CString) → Lacks c t → strrchr c (s ++ c ∷ t) ≡ some (length s)
  unfolding strrchr
  strrchr-found [] t h = ground (arith, strrchr-none t h)
  strrchr-found (x ∷ s) t h = ground (arith, strrchr-found s t h)

  pub unescaped-plain : (s : CString) → Lacks c s → unescaped c false s ≡ s
  unfolding unescaped
  unescaped-plain [] h = refl
  unescaped-plain (x ∷ s) h = ground (arith, unescaped-plain s h.1)

  pub Lacks-append : (s t : CString) → Lacks c s → Lacks c t → Lacks c (s ++ t)
  Lacks-append [] t hs ht = ht
  Lacks-append (x ∷ s) t hs ht = (hs.0, Lacks-append s t hs.1 ht)

  strip_prefix-append : (n t : CString) → strip_prefix n (n ++ t) ≡ some t
  unfolding strip_prefix
  strip_prefix-append [] t = refl
  strip_prefix-append (x ∷ n) t = ground (arith, strip_prefix-append n t)

  -- A needle that begins with this character.
  pub strstr-found :
      (n s t : CString) → Lacks c s → strstr (c ∷ n) (s ++ c ∷ (n ++ t)) ≡ some (s, t)
  unfolding strstr strip_prefix
  strstr-found n [] t h = ground (arith, strip_prefix-append n t)
  strstr-found n (x ∷ s) t h = ground (arith, strstr-found n s t h.1)

abbrev pub AreDigits : CString → Type 0
AreDigits = All λ c. is_digit c ≡ true

-- A number without a sign is read as its digits are.
pub strtol-digits :
    (c : ℕ) (ds : CString) → is_digit c ≡ true → strtol (c ∷ ds) ≡ (false, digits 0 (c ∷ ds))
unfolding strtol skip_spaces
strtol-digits c ds h = ground arith

pub Lacks-AreDigits : (c : ℕ) → is_digit c ≡ false → (ds : CString) → AreDigits ds → Lacks c ds
Lacks-AreDigits c h [] hs = tt
Lacks-AreDigits c h (d ∷ ds) hs = (ground arith, Lacks-AreDigits c h ds hs.1)
