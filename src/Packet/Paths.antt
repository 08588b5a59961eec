-- ===== src/Packet/Paths.antt =====
-- A path in a packet: copy_path, sizeof_path_header and unixpath_to_afppath of lib/utils.c.
use time_capsule_mount.Prelude.{
  ℕ, suc, ◌+◌, ◌%◌, ◌/◌, ◌*◌, ◌≤◌, ◌≡◌, refl, subst, ◌⊎◌, inl, inr, Option, none, some, List, [],
  ◌∷◌, ◌++◌, map, CString, ◌==◌, leb, if◌then◌else◌, length, take, drop, arith, take-append,
  drop-append, ap, sym, take_all,
}
use time_capsule_mount.Afp.Bits
use time_capsule_mount.Dsi.Wire.{byte_at, ntohs_at, htons, htonl}
use time_capsule_mount.Reply.Pascal.{IsString, copy_to_pascal, copy_to_pascal_two}

unfoldable pub sizeof_path_header : ℕ → ℕ
sizeof_path_header encoding =
    if encoding == Bits.utf8_name then 7 else (if encoding == Bits.long_name then 2 else 0)

-- A slash ends a name in the path.
abbrev pub to_afp : ℕ → ℕ
to_afp c = if c == b'/' then 0 else c

-- copy_path and unixpath_to_afppath, for a packet with just as much room as the header and the path
-- take. `none` is a path that is too long for the buffer on the way, or an encoding that is neither of
-- the two, for which nothing is written there.
unfoldable pub path_bytes : (encoding : ℕ) → CString → Option (List ℕ)
unfolding copy_to_pascal copy_to_pascal_two htonl htons
path_bytes encoding pathname =
    let name = map to_afp pathname in
    if encoding == Bits.utf8_name
    then (if leb (length pathname) 253
        then some (Bits.utf8_name ∷ (htonl 0x08000103 ++ copy_to_pascal_two name))
        else none)
    else (if encoding == Bits.long_name
        then (if leb (length pathname) 254
            then some (Bits.long_name ∷ copy_to_pascal name)
            else none)
        else none)

-- What a server reads: a path, and what follows it.
abbrev pub from_afp : ℕ → ℕ
from_afp c = if c == 0 then b'/' else c

unfoldable pub decode_path : List ℕ → Option (CString × List ℕ)
unfolding ntohs_at
decode_path [] = none
decode_path (type ∷ rest) =
    if type == Bits.utf8_name
    then (let len = ntohs_at rest 4 in
        some (map from_afp (take len (drop 6 rest)), drop len (drop 6 rest)))
    else (if type == Bits.long_name
        then (let len = byte_at rest 0 in
            some (map from_afp (take len (drop 1 rest)), drop len (drop 1 rest)))
        else none)

length-map : (s : CString) → length (map to_afp s) ≡ length s
length-map [] = refl
length-map (x ∷ s) = ap suc (length-map s)

from-to : (s : CString) → IsString s → map from_afp (map to_afp s) ≡ s
from-to [] h = refl
from-to (x ∷ s) h = ground (arith, from-to s h.1)

-- The path can be sent.
pub record IsPath (encoding : ℕ) (s : CString) : Type 0 where
  pub known : (encoding ≡ Bits.utf8_name) ⊎ (encoding ≡ Bits.long_name)
  pub string : IsString s
  pub fits : length s ≤ 253

pub record Sent (encoding : ℕ) (s : CString) : Type 0 where
  pub bytes : List ℕ
  pub sent : path_bytes encoding s ≡ some bytes
  pub size : length bytes ≡ sizeof_path_header encoding + length s
  pub read : (rest : List ℕ) → decode_path (bytes ++ rest) ≡ some (s, rest)

utf8_path : CString → List ℕ
utf8_path s = Bits.utf8_name ∷ (htonl 0x08000103 ++ htons (length s) ++ map to_afp s)

long_path : CString → List ℕ
long_path s = Bits.long_name ∷ length s ∷ map to_afp s

utf8_path-sent : (s : CString) → length s ≤ 253 → path_bytes Bits.utf8_name s ≡ some (utf8_path s)
unfolding path_bytes utf8_path copy_to_pascal_two
utf8_path-sent s h =
    let whole : length s % 65536 ≡ length s = omega arith in
    let all : take (length s) (map to_afp s) ≡ map to_afp s =
      take_all (length s) (map to_afp s) (omega (arith, length-map s)) in
    ground (arith, length-map s, whole, all)

long_path-sent : (s : CString) → length s ≤ 253 → path_bytes Bits.long_name s ≡ some (long_path s)
unfolding path_bytes long_path copy_to_pascal
long_path-sent s h =
    let whole : length s % 256 ≡ length s = omega arith in
    let all : take (length s) (map to_afp s) ≡ map to_afp s =
      take_all (length s) (map to_afp s) (omega (arith, length-map s)) in
    ground (arith, length-map s, whole, all)

-- What a read of as many bytes as the path has gives.
cut :
    (s : CString) (rest : List ℕ)
    → (take (length s) (map to_afp s ++ rest) ≡ map to_afp s)
      × (drop (length s) (map to_afp s ++ rest) ≡ rest)
cut s rest = (
  subst (λ n. take n (map to_afp s ++ rest) ≡ map to_afp s) (length-map s)
      (take-append (map to_afp s) rest),
  subst (λ n. drop n (map to_afp s ++ rest) ≡ rest) (length-map s)
      (drop-append (map to_afp s) rest),
)

utf8_path-read :
    (s : CString) (rest : List ℕ)
    → IsString s
    → length s ≤ 253
    → decode_path (utf8_path s ++ rest) ≡ some (s, rest)
unfolding decode_path utf8_path htonl
utf8_path-read s rest h fits =
    let len : length s / 256 % 256 * 256 + length s % 256 ≡ length s = omega arith in
    rw (len, (cut s rest).0, (cut s rest).1, from-to s h) refl

long_path-read :
    (s : CString) (rest : List ℕ) → IsString s → decode_path (long_path s ++ rest) ≡ some (s, rest)
unfolding decode_path long_path
long_path-read s rest h = rw ((cut s rest).0, (cut s rest).1, from-to s h) refl

utf8_path-size : (s : CString) → length (utf8_path s) ≡ 7 + length s
unfolding utf8_path htonl
utf8_path-size s = omega (arith, length-map s)

long_path-size : (s : CString) → length (long_path s) ≡ 2 + length s
unfolding long_path
long_path-size s = omega (arith, length-map s)

-- A path of at most 253 bytes takes up just the bytes that a builder has counted for it, and is read
-- back by the server whatever follows it, its slashes included.
pub path_bytes-Sent : (encoding : ℕ) (s : CString) → IsPath encoding s → Sent encoding s
unfolding sizeof_path_header
path_bytes-Sent encoding s p = elim p.known [
  | inl e ↦
      subst (λ n. Sent n s) (sym e)
        (record {
          bytes = utf8_path s;
          sent = utf8_path-sent s p.fits;
          size = utf8_path-size s;
          read = λ rest. utf8_path-read s rest p.string p.fits;
        })
  | inr e ↦
      subst (λ n. Sent n s) (sym e)
        (record {
          bytes = long_path s;
          sent = long_path-sent s p.fits;
          size = long_path-size s;
          read = λ rest. long_path-read s rest p.string;
        })
]
