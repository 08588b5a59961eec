-- ===== src/Volume/Spelling.antt =====
-- What is sent as a name: convert_utf8pre_to_utf8dec of lib/codepage.c and invalid_filename of
-- lib/utils.c.
use time_capsule_mount.Prelude.{
  ℕ, zero, suc, ◌-◌, ◌≤◌, ◌<◌, ◌≡◌, refl, subst, Bool, true, false, ◌&&◌, ◌||◌, Option, none, some,
  List, [], ◌∷◌, CString, ◌==◌, ltb, if◌then◌else◌, arith, length, Bool-cases, Option-cases, inl,
  inr,
}
use time_capsule_mount.Did.Lookup.{slash, strchr}
use time_capsule_mount.Volume.Names.{
  starts_composed, convert_utf8pre_to_utf8dec, long_name_in, invalid_filename, max_name,
}

-- The byte pair 0xc3 0xa4 stands somewhere in the string.
unfoldable pub has_composed : CString → Bool
has_composed [] = false
has_composed (a ∷ s) = let rest = has_composed s in starts_composed (a ∷ s) || rest

abbrev starts_a4 : CString → Bool
starts_a4 [] = false
starts_a4 (a ∷ s) = a == 0xa4

converted-starts :
    (src : CString) (room : ℕ)
    → starts_a4 (convert_utf8pre_to_utf8dec src room) ≡ true
    → starts_a4 src ≡ true
unfolding convert_utf8pre_to_utf8dec
converted-starts [] room h = ground arith
converted-starts (a ∷ []) room h = ground arith
converted-starts (a ∷ b ∷ src) room h = ground arith

cons-has_composed :
    (a : ℕ) (s : CString)
    → has_composed s ≡ false
    → ((a == 0xc3) && starts_a4 s) ≡ false
    → has_composed (a ∷ s) ≡ false
unfolding has_composed
cons-has_composed a [] h e = ground arith
cons-has_composed a (b ∷ s) h e = ground arith

-- The converted name holds the pair 0xc3 0xa4 nowhere, whatever room there is for it.
pub convert_utf8pre_to_utf8dec-decomposed :
    (src : CString) (room : ℕ) → has_composed (convert_utf8pre_to_utf8dec src room) ≡ false
unfolding convert_utf8pre_to_utf8dec has_composed
convert_utf8pre_to_utf8dec-decomposed [] room = refl
convert_utf8pre_to_utf8dec-decomposed (a ∷ []) room = ground arith
convert_utf8pre_to_utf8dec-decomposed (a ∷ b ∷ src) room = ground (
  arith,
  convert_utf8pre_to_utf8dec-decomposed src (room - 3),
  cons-has_composed a (convert_utf8pre_to_utf8dec (b ∷ src) (room - 1))
      (convert_utf8pre_to_utf8dec-decomposed (b ∷ src) (room - 1)),
  converted-starts (b ∷ src) (room - 1),
)

-- The names between the slashes.
abbrev prepend : ℕ → List CString → List CString
prepend c [] = (c ∷ []) ∷ []
prepend c (n ∷ ns) = (c ∷ n) ∷ ns

unfoldable pub components : CString → List CString
components [] = [] ∷ []
components (c ∷ s) = let rest = components s in if c == slash then [] ∷ rest else prepend c rest

abbrev pub any_longer : ℕ → List CString → Bool
any_longer maxlen [] = false
any_longer maxlen (n ∷ ns) = ltb maxlen (length n) || any_longer maxlen ns

abbrev FirstName : CString → Option (CString × CString) → Type 0
FirstName s none = components s ≡ s ∷ []
FirstName s (some (name, behind)) =
    (components s ≡ name ∷ components behind) × (length behind < length s)

strchr-components : (s : CString) → FirstName s (strchr s)
unfolding strchr components
strchr-components [] = refl
strchr-components (c ∷ s) = elim (Bool-cases (c == slash)) [
  | inl e ↦ rw (e, strchr) (ground arith)
  | inr e ↦ elim (Option-cases (strchr s)) [
    | inl n ↦ rw (e, n, strchr) (ground (arith, subst (FirstName s) n (strchr-components s)))
    | inr (p, n) ↦ rw (e, n, strchr) (ground (arith, subst (FirstName s) n (strchr-components s)))
  ]
]

long_name_in-components :
    (n maxlen : ℕ) (p : CString)
    → length p ≤ n
    → long_name_in n maxlen p ≡ any_longer maxlen (components p)
unfolding long_name_in
long_name_in-components zero maxlen [] h = unfold components in ground arith
long_name_in-components zero maxlen (c ∷ p) h = absurd (omega arith)
long_name_in-components (suc n) maxlen p h = elim (Option-cases (strchr p)) [
  | inl e ↦ rw (e, long_name_in) (ground (arith, subst (FirstName p) e (strchr-components p)))
  | inr ((name, behind), e) ↦
      let f = subst (FirstName p) e (strchr-components p) in
      rw (e, long_name_in)
        (ground (arith, f, long_name_in-components n maxlen behind (omega (arith, f.1))))
]

-- A path is refused exactly if one of its names, behind the first character, is longer than the server
-- allows; the path is not just one character.
pub invalid_filename-components :
    (av_number encoding c d : ℕ) (p : CString)
    → invalid_filename av_number encoding (c ∷ d ∷ p)
      ≡ any_longer (max_name av_number encoding) (components (d ∷ p))
unfolding invalid_filename
invalid_filename-components av_number encoding c d p = ground (
  arith,
  long_name_in-components (length (d ∷ p)) (max_name av_number encoding) (d ∷ p) (omega arith),
)
