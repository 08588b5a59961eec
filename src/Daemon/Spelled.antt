-- ===== src/Daemon/Spelled.antt =====
-- The volumes that can be found by their names: find_volume_by_name of lib/afp.c, which decomposes the name
-- that it is given and compares it with the names that are shown.
use time_capsule_mount.Prelude.{
  ℕ, ◌+◌, ◌≡◌, ◌∙◌, ap, sym, subst, false, Option, none, some, List, [], ◌∷◌, CString, str_eq,
  str_eq→eq, Bool-cases, inl, inr, if◌then◌else◌,
}
use time_capsule_mount.Volume.Names.{convert_utf8pre_to_utf8dec}
use time_capsule_mount.Volume.Spelling.{has_composed, convert_utf8pre_to_utf8dec-decomposed}
use time_capsule_mount.Daemon.Mounting.{Offered, volume_name_len, named_from, find_volume_by_name}

abbrev found_name : Option (ℕ × Offered) → CString
found_name none = []
found_name (some (i, v)) = v.volume_name_printable

named_from-name :
    (i : ℕ) (name : CString) (vs : List Offered) (j : ℕ) (v : Offered)
    → named_from i name vs ≡ some (j, v)
    → v.volume_name_printable ≡ name
unfolding named_from
named_from-name i name [] j v e = cc
named_from-name i name (w ∷ vs) j v e = elim (Bool-cases (str_eq name w.volume_name_printable)) [
  | inl s ↦
      sym (
        ap found_name
          (subst (λ b. (if b then some (i, w) else named_from (i + 1) name vs) ≡ some (j, v)) s e))
      ∙ sym (str_eq→eq name w.volume_name_printable s)
  | inr s ↦
      named_from-name (i + 1) name vs j v
        (subst (λ b. (if b then some (i, w) else named_from (i + 1) name vs) ≡ some (j, v)) s e)
]

-- A volume that is found has nowhere in the name that is shown the letter that is written 0xc3 0xa4: a
-- volume with that letter in its name is found under no name.
pub find_volume_by_name-decomposed :
    (volumes : List Offered) (volname : CString) (i : ℕ) (v : Offered)
    → find_volume_by_name volumes volname ≡ some (i, v)
    → has_composed v.volume_name_printable ≡ false
unfolding find_volume_by_name
find_volume_by_name-decomposed volumes volname i v e =
    ap has_composed
      (named_from-name 0 (convert_utf8pre_to_utf8dec volname volume_name_len) volumes i v e)
    ∙ convert_utf8pre_to_utf8dec-decomposed volname volume_name_len
