-- ===== src/Url/Endless.antt =====
-- Where escape_strrchr of lib/afp_url.c does not end: the string from two characters before a doubled
-- one on has the same last character again.
use time_capsule_mount.Prelude.{
  ℕ, zero, suc, ◌+◌, ◌≡◌, refl, some, [], ◌∷◌, ◌++◌, CString, codes, arith, length, drop, get_or,
}
use time_capsule_mount.Url.Escapes.{strrchr, Found, escape_strrchr}
use time_capsule_mount.Url.Splitting.{Lacks, strrchr-found}

drop-length : (s t : CString) → drop (length s) (s ++ t) ≡ t
drop-length [] t = refl
drop-length (x ∷ s) t = drop-length s t

get_or-second : (s : CString) (x y : ℕ) (t : CString) → get_or (s ++ x ∷ y ∷ t) (length s + 1) 0 ≡ y
get_or-second [] x y t = refl
get_or-second (z ∷ s) x y t = ground (arith, get_or-second s x y t)

abbrev doubled : CString → ℕ → CString → CString
doubled s x t = s ++ x ∷ b':' ∷ b':' ∷ t

last_colon :
    (s : CString) (x : ℕ) (t : CString)
    → Lacks b':' t
    → strrchr b':' (doubled s x t) ≡ some (length s + 2)
unfolding strrchr
last_colon [] x t h = ground (arith, strrchr-found b':' (x ∷ b':' ∷ []) t h)
last_colon (z ∷ s) x t h = ground (arith, last_colon s x t h)

module _ (s : CString) (x : ℕ) (t : CString) (h : Lacks b':' t) where
  again :
      (calls : ℕ)
      → escape_strrchr calls (doubled s x t) (length s) b':' (codes ":") ≡ Found.unfinished
  unfolding escape_strrchr
  again zero = refl
  again (suc calls) = ground (
    arith,
    again calls,
    drop-length s (x ∷ b':' ∷ b':' ∷ t),
    last_colon [] x t h,
    get_or-second s x b':' (b':' ∷ t),
  )

  -- If the last colon of the user part of a URL is the second of two, and another character stands
  -- before them, then the search for the password never ends: no number of calls is enough.
  pub escape_strrchr-unfinished :
      (calls : ℕ) → escape_strrchr calls (doubled s x t) 0 b':' (codes ":") ≡ Found.unfinished
  unfolding escape_strrchr
  escape_strrchr-unfinished zero = refl
  escape_strrchr-unfinished (suc calls) =
      ground (arith, again calls, last_colon s x t h, get_or-second s x b':' (b':' ∷ t))
