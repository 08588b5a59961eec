-- ===== src/Volume/MetaPaths.antt =====
-- The directory .AppleDouble in every directory: extra_translate of lib/resource.c.
use time_capsule_mount.Prelude.{
  ℕ, ◌+◌, ◌-◌, ◌≤◌, ◌≡◌, refl, ap, ◌∙◌, true, false, [], ◌∷◌, ◌++◌, CString, str_eq, str_eq→eq,
  arith, length, take, take-append, length-append, Bool-cases, inl, inr,
}
use time_capsule_mount.Afp.Bits.{meta_appledouble}
use time_capsule_mount.Did.Lookup.{slash}
use time_capsule_mount.Did.Paths.{IsName, strrchr-name}
use time_capsule_mount.Volume.Meta.{extra_translate, appledouble, servericon_string}

-- The root is named by its slash.
abbrev pub real_directory : CString → CString
real_directory [] = slash ∷ []
real_directory (c ∷ dir) = c ∷ dir

not_icon : (path : CString) → 13 ≤ length path → str_eq path servericon_string ≡ false
not_icon path h = elim (Bool-cases (str_eq path servericon_string)) [
  | inl e ↦ absurd (omega (arith, ap length (str_eq→eq path servericon_string e)))
  | inr e ↦ e
]

appledouble-IsName : IsName appledouble
appledouble-IsName = (
  refl,
  (refl, (refl, (refl, (refl, (refl, (refl, (refl, (refl, (refl, (refl, (refl, tt))))))))))),
)

minus_thirteen : (m n : ℕ) → m ≡ n + 13 → m - 13 ≡ n
minus_thirteen m n e = omega (arith, e)

-- Where these files are shown, "dir/.AppleDouble" is the directory kind, and stands for "dir", or for
-- "/" where dir is empty, whatever dir is.
pub extra_translate-appledouble :
    (dir : CString)
    → extra_translate true (dir ++ slash ∷ appledouble) ≡ (meta_appledouble, real_directory dir)
unfolding extra_translate
extra_translate-appledouble [] = refl
extra_translate-appledouble (c ∷ dir) =
    let path = (c ∷ dir) ++ slash ∷ appledouble in
    let size : length path ≡ length (c ∷ dir) + 13 =
      length-append (c ∷ dir) (slash ∷ appledouble) in
    let kept : take (length path - 13) path ≡ c ∷ dir =
      ap (λ n. take n path) (minus_thirteen (length path) (length (c ∷ dir)) size)
      ∙ take-append (c ∷ dir) (slash ∷ appledouble) in
    ground (
      arith,
      size,
      kept,
      not_icon path (omega (arith, size)),
      strrchr-name (c ∷ dir) appledouble appledouble-IsName,
    )
