-- ===== src/Url/Strings.antt =====
-- The functions of <string.h> and <stdlib.h> that lib/afp_url.c calls. A pointer into a string at which
-- the string is cut is the pair of what stands before it and behind it.
use time_capsule_mount.Prelude.{
  ℕ, ◌+◌, ◌-◌, ◌*◌, Bool, true, false, ◌&&◌, ◌||◌, Option, none, some, [], ◌∷◌, CString, ◌==◌, leb,
  if◌then◌else◌,
}

abbrev pub Cut : Type 0
Cut = Option (CString × CString)

-- The cut of x ∷ xs, from one of xs.
abbrev pub behind : ℕ → Cut → Cut
behind x none = none
behind x (some (a, b)) = some (x ∷ a, b)

-- strchr(s, c), less the character itself
unfoldable pub strchr : ℕ → CString → Cut
strchr c [] = none
strchr c (x ∷ xs) = if x == c then some ([], xs) else behind x (strchr c xs)

-- What follows the first string in the second, if it begins that way.
unfoldable pub strip_prefix : CString → CString → Option CString
strip_prefix [] s = some s
strip_prefix (c ∷ cs) [] = none
strip_prefix (c ∷ cs) (x ∷ xs) = if x == c then strip_prefix cs xs else none

-- strstr(s, needle), less the needle itself
unfoldable pub strstr : CString → CString → Cut
unfolding strip_prefix
strstr needle [] = elim (strip_prefix needle []) [ none ↦ none | some rest ↦ some ([], rest) ]
strstr needle (x ∷ xs) =
    let later = strstr needle xs in
    elim (strip_prefix needle (x ∷ xs)) [ none ↦ behind x later | some rest ↦ some ([], rest) ]

-- isspace in the C locale
abbrev pub is_space : ℕ → Bool
is_space c = c == 32 || (leb 9 c && leb c 13)

abbrev pub is_digit : ℕ → Bool
is_digit c = leb 48 c && leb c 57

-- The value of the digits that a string begins with, behind the digits of `n`.
unfoldable pub digits : ℕ → CString → ℕ
digits n [] = n
digits n (c ∷ cs) = if is_digit c then digits (n * 10 + (c - 48)) cs else n

unfoldable pub skip_spaces : CString → CString
skip_spaces [] = []
skip_spaces (c ∷ cs) = if is_space c then skip_spaces cs else c ∷ cs

-- strtol(s, NULL, 10): the sign and the value. It is not cut to the range of a long.
unfoldable pub strtol : CString → Bool × ℕ
unfolding digits skip_spaces
strtol s = elim (skip_spaces s) [
  | [] ↦ (false, 0)
  | c ∷ cs ↦
      if c == b'-'
      then (true, digits 0 cs)
      else (if c == b'+' then (false, digits 0 cs) else (false, digits 0 (c ∷ cs)))
]
