-- ===== src/Reply/Pascal.antt =====
-- The Pascal strings of lib/utils.c: a length of one byte or of two, and as many bytes. A pointer into
-- a buffer is what the buffer holds from there on.
use Prim.Native.Nat.{min}
use time_capsule_mount.Prelude.{
  ℕ, ◌+◌, ◌*◌, ◌%◌, ◌^◌, ◌≤◌, ◌<◌, ◌≡◌, refl, false, Option, none, some, List, [], ◌∷◌, ◌++◌,
  CString, ◌==◌, leb, if◌then◌else◌, length, take, drop, All, arith, take-append, take_all, ◌/◌,
}
use time_capsule_mount.Dsi.Wire.{ntohs_at, htons}

-- The C string in a buffer.
unfoldable pub until_nul : List ℕ → CString
until_nul [] = []
until_nul (x ∷ xs) = if x == 0 then [] else x ∷ until_nul xs

-- copy_from_pascal: the length, and the string in the destination, which is cleared first. `none` is a
-- read behind the end of the buffer.
unfoldable pub copy_from_pascal : List ℕ → (max_len : ℕ) → Option (ℕ × CString)
unfolding until_nul
copy_from_pascal [] max_len = none
copy_from_pascal (n ∷ xs) max_len =
    let len = min max_len n in
    if leb len (length xs) then some (len, until_nul (take len xs)) else none

-- copy_from_pascal_two, which leaves the destination as it is where the length is 0
unfoldable pub copy_from_pascal_two : CString → List ℕ → (max_len : ℕ) → Option (ℕ × CString)
unfolding until_nul ntohs_at
copy_from_pascal_two dest pascal max_len =
    let len = min max_len (ntohs_at pascal 0) in
    if leb (len + 2) (length pascal)
    then some (len, if len == 0 then dest else until_nul (take len (drop 2 pascal)))
    else none

-- copy_to_pascal and copy_to_pascal_two: what is stored in the destination. The length is cut to its
-- width, and the bytes with it.
unfoldable pub copy_to_pascal : CString → List ℕ
copy_to_pascal src = let len = length src % 256 in len ∷ take len src

unfoldable pub copy_to_pascal_two : CString → List ℕ
unfolding htons
copy_to_pascal_two src = let len = length src % 2 ^ 16 in htons len ++ take len src

-- A C string holds no terminator.
abbrev pub IsString : CString → Type 0
IsString = All λ x. (x == 0) ≡ false

pub until_nul-IsString : (s : CString) → IsString s → until_nul s ≡ s
unfolding until_nul
until_nul-IsString [] h = refl
until_nul-IsString (x ∷ s) h = ground (arith, until_nul-IsString s h.1)

pub length-append-le : (s t : CString) → length s ≤ length (s ++ t)
length-append-le [] t = omega arith
length-append-le (x ∷ s) t = omega (arith, length-append-le s t)

module _ (s : CString) (rest : List ℕ) (max_len : ℕ) (h : IsString s)
    (fits : length s ≤ max_len) where
  -- A string of at most 255 bytes that copy_to_pascal stored is read back by copy_from_pascal, where
  -- the reader allows its length, and whatever follows it.
  pub copy_from_pascal-copy_to_pascal :
      length s < 256 → copy_from_pascal (copy_to_pascal s ++ rest) max_len ≡ some (length s, s)
  unfolding copy_from_pascal copy_to_pascal
  copy_from_pascal-copy_to_pascal short =
      let whole : length s % 256 ≡ length s = omega arith in
      let all : take (length s) s ≡ s = take_all (length s) s (omega arith) in
      let min_len : min max_len (length s) ≡ length s = omega arith in
      rw (whole, all, min_len, take-append s rest, until_nul-IsString s h)
        (ground (arith, length-append-le s rest))

  -- A string that is not empty and has at most 65535 bytes is read back by copy_from_pascal_two as
  -- copy_to_pascal_two stored it, where the reader allows its length, and whatever follows it.
  pub copy_from_pascal_two-copy_to_pascal_two :
      (dest : CString)
      → 0 < length s
      → length s < 2 ^ 16
      → copy_from_pascal_two dest (copy_to_pascal_two s ++ rest) max_len ≡ some (length s, s)
  unfolding copy_from_pascal_two copy_to_pascal_two htons ntohs_at
  copy_from_pascal_two-copy_to_pascal_two dest some_part short =
      let whole : length s % 65536 ≡ length s = omega arith in
      let all : take (length s) s ≡ s = take_all (length s) s (omega arith) in
      let min_len : min max_len (length s) ≡ length s = omega arith in
      let read : length s / 256 % 256 * 256 + length s % 256 ≡ length s = omega arith in
      rw (whole, all, read, min_len, take-append s rest, until_nul-IsString s h)
        (ground (arith, length-append-le s rest))
