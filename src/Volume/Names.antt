-- ===== src/Volume/Names.antt =====
-- Names on the way to the server: convert_path_to_afp and convert_utf8pre_to_utf8dec of
-- lib/codepage.c, and invalid_filename of lib/utils.c.
use time_capsule_mount.Prelude.{
  ℕ, zero, suc, ◌-◌, Bool, true, false, ◌&&◌, Option, none, some, [], ◌∷◌, CString, ◌==◌, ltb,
  if◌then◌else◌, length, take,
}
use time_capsule_mount.Afp.Bits.{utf8_name, long_name}
use time_capsule_mount.Did.Lookup.{slash, strchr}

-- AFP_MAX_PATH
abbrev pub max_path : ℕ
max_path = 768

-- src[i] is 0xc3, and src[i+1] is 0xa4; behind the end stands the terminator.
abbrev pub starts_composed : CString → Bool
starts_composed [] = false
starts_composed (a ∷ []) = false
starts_composed (a ∷ b ∷ src) = a == 0xc3 && b == 0xa4

-- `room` is what is left of dest_len. The three bytes are written even if fewer are left.
unfoldable pub convert_utf8pre_to_utf8dec : CString → ℕ → CString
convert_utf8pre_to_utf8dec [] room = []
convert_utf8pre_to_utf8dec (a ∷ []) room = if room == 0 then [] else a ∷ []
convert_utf8pre_to_utf8dec (a ∷ b ∷ src) room =
    let found = convert_utf8pre_to_utf8dec src (room - 3) in
    let next = convert_utf8pre_to_utf8dec (b ∷ src) (room - 1) in
    if room == 0
    then []
    else (if a == 0xc3 && b == 0xa4 then 0x61 ∷ 0xcc ∷ 0x88 ∷ found else a ∷ next)

-- `none` is the return value -1.
unfoldable pub convert_path_to_afp : ℕ → CString → ℕ → Option CString
unfolding convert_utf8pre_to_utf8dec
convert_path_to_afp encoding src dest_len =
    if encoding == utf8_name
    then some (convert_utf8pre_to_utf8dec src dest_len)
    else (if encoding == long_name then some (take dest_len src) else none)

abbrev pub max_name : (av_number encoding : ℕ) → ℕ
max_name av_number encoding =
    if ltb av_number 30 then 31 else (if encoding == utf8_name then 1024 else 255)

-- The loop over the names, from the one that `p` starts; its fuel is the length of the path.
unfoldable pub long_name_in : ℕ → ℕ → CString → Bool
unfolding strchr
long_name_in zero maxlen p = ltb maxlen (length p)
long_name_in (suc n) maxlen p = elim (strchr p) [
  | none ↦ ltb maxlen (length p)
  | some (name, q) ↦ elim (ltb maxlen (length name)) [
    | true ↦ true
    | false ↦ long_name_in n maxlen q
  ]
]

-- For the empty string the code reads behind the terminator; no caller has one.
unfoldable pub invalid_filename : (av_number encoding : ℕ) → CString → Bool
unfolding long_name_in
invalid_filename av_number encoding [] = false
invalid_filename av_number encoding (c ∷ p) =
    if length p == 0 && c == slash
    then false
    else long_name_in (length p) (max_name av_number encoding) p
