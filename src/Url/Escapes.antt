-- ===== src/Url/Escapes.antt =====
-- The doubled characters of lib/afp_url.c: escape_strchr and escape_strrchr look for a character that
-- is not doubled, and escape_string is to make one of two.
use time_capsule_mount.Prelude.{
  ℕ, zero, suc, ◌+◌, ◌-◌, Bool, false, ◌&&◌, ◌||◌, Option, none, some, [], ◌∷◌, CString, ◌==◌, ltb,
  if◌then◌else◌, drop, get_or,
}
use time_capsule_mount.Url.Strings.{Cut, behind, strchr}

abbrev is_in : ℕ → CString → Bool
is_in c [] = false
is_in c (x ∷ xs) = x == c || is_in c xs

-- The search behind each doubled character goes on two further.
unfoldable pub undoubled : ℕ → CString → Cut
undoubled c [] = none
undoubled c (x ∷ []) = if x == c then some ([], []) else none
undoubled c (x ∷ y ∷ ys) =
    let skipped = behind x (behind y (undoubled c ys)) in
    let further = behind x (undoubled c (y ∷ ys)) in
    if x == c then (if y == c then skipped else some ([], y ∷ ys)) else further

unfoldable pub escape_strchr : CString → ℕ → CString → Cut
unfolding strchr undoubled
escape_strchr haystack c toescape =
    if is_in c toescape then undoubled c haystack else strchr c haystack

-- strrchr, as the index of the last such character
unfoldable pub strrchr : ℕ → CString → Option ℕ
strrchr c [] = none
strrchr c (x ∷ xs) =
    let later = strrchr c xs in
    elim later [ some i ↦ some (i + 1) | none ↦ if x == c then some 0 else none ]

-- What escape_strrchr comes to: an index, or that there is none; a pointer before the string; or no
-- end within the calls that were given it.
pub data Found : Type 0 where
  at : ℕ → Found
  nowhere outside : Found
  unfinished : Found

-- `from` is where the haystack begins in the string. Each call is for the string from there on, to the
-- same end.
unfoldable pub escape_strrchr : (calls : ℕ) → CString → (from : ℕ) → ℕ → CString → Found
unfolding strrchr
escape_strrchr zero s from c toescape = Found.unfinished
escape_strrchr (suc calls) s from c toescape = elim (strrchr c (drop from s)) [
  | none ↦ Found.nowhere
  | some i ↦
      let p = from + i in
      let earlier = escape_strrchr calls s (p - 2) c toescape in
      if is_in c toescape
      then (if i == 0
          then Found.at p
          else (if get_or s (p - 1) 0 == c
              then (if ltb p 2 then Found.outside else earlier)
              else Found.at p))
      else Found.at p
]

-- The loop of escape_string, with its variable `inescape`.
unfoldable pub unescaped : ℕ → (inescape : Bool) → CString → CString
unescaped c inescape [] = []
unescaped c inescape (d ∷ ds) =
    let dropped = unescaped c false ds in
    let kept = d ∷ unescaped c (inescape || d == c) ds in
    if inescape && d == c then dropped else kept

unfoldable pub escape_string : CString → ℕ → CString
unfolding unescaped
escape_string s c = unescaped c false s
