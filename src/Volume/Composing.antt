-- ===== src/Volume/Composing.antt =====
-- Names on the way from the server: convert_path_to_unix and convert_utf8dec_to_utf8pre of
-- lib/codepage.c, on the functions of lib/unicode.c.
use time_capsule_mount.Prelude.{
  ℕ, Option, none, some, List, [], ◌∷◌, CString, ◌==◌, if◌then◌else◌, take,
}
use time_capsule_mount.Afp.Bits.{utf8_name, long_name}

-- What lib/unicode.c does, on the tables of another project: UTF8toUCS2, UCS2precompose, which is
-- `none` for -1, and UCS2toUTF8. A string of 16-bit characters is the list of those before its
-- terminator.
pub record Unicode : Type 0 where
  pub utf8_to_ucs2 : CString → List ℕ
  pub ucs2_precompose : ℕ → ℕ → Option ℕ
  pub ucs2_to_utf8 : List ℕ → CString

-- The loop of convert_utf8dec_to_utf8pre: what it stores from the character at p16dec on. path16pre
-- has room for 384 characters, which is not tested.
unfoldable pub precomposed : (ℕ → ℕ → Option ℕ) → (prev : ℕ) → List ℕ → List ℕ
precomposed precompose prev [] = []
precomposed precompose prev (c ∷ []) =
    if prev == 0
    then c ∷ []
    else elim (precompose prev c) [ some comp ↦ comp ∷ [] | none ↦ prev ∷ c ∷ [] ]
precomposed precompose prev (c ∷ d ∷ rest) =
    if prev == 0 then precomposed precompose c (d ∷ rest) else elim (precompose prev c) [
      | some comp ↦ precomposed precompose comp (d ∷ rest)
      | none ↦ prev ∷ precomposed precompose c (d ∷ rest)
    ]

-- `dest_len` is not tested.
unfoldable pub convert_utf8dec_to_utf8pre : Unicode → CString → CString
convert_utf8dec_to_utf8pre u src =
    u.ucs2_to_utf8 (precomposed u.ucs2_precompose 0 (u.utf8_to_ucs2 src))

-- `none` is the return value -1, which leaves an empty string.
unfoldable pub convert_path_to_unix : Unicode → ℕ → CString → ℕ → Option CString
convert_path_to_unix u encoding src dest_len =
    if encoding == utf8_name
    then some (convert_utf8dec_to_utf8pre u src)
    else (if encoding == long_name then some (take dest_len src) else none)
