-- ===== src/Packet/Decode.antt =====
-- What a server reads in the packets that the builders of lib/proto_*.c make, by the layout of the AFP
-- functions: the id of the volume or of its desktop database, where there is one, and the request. It is
-- written from the layout of the packets, and uses no builder.
use time_capsule_mount.Prelude.{
  ℕ, ◌+◌, ◌*◌, ◌^◌, Option, none, some, List, [], ◌∷◌, CString, ◌==◌, if◌then◌else◌, drop,
}
use time_capsule_mount.Afp.Request.{Request}
use time_capsule_mount.Dsi.Wire.{ntohs_at, ntohl_at}
use time_capsule_mount.Packet.Paths.{decode_path}

abbrev ntoh64_at : List ℕ → ℕ → ℕ
ntoh64_at b i = ntohl_at b i * 2 ^ 32 + ntohl_at b (i + 4)

abbrev pub Decoded : Type 0
Decoded = Option (ℕ × Request)

-- A path at the end of a packet.
abbrev pub last_path : ℕ → List ℕ → (CString → Request) → Decoded
last_path id b request = elim (decode_path b) [
  | none ↦ none
  | some (name, _) ↦ some (id, request name)
]

unfoldable pub decode_move : ℕ → (a b : ℕ) → List ℕ → Decoded
decode_move id a b bytes = elim (decode_path bytes) [
  | none ↦ none
  | some (from, bytes) ↦ elim (decode_path bytes) [
    | none ↦ none
    | some (to, bytes) ↦ last_path id bytes (Request.move_and_rename a b from (some to))
  ]
]

-- `b` is what follows the command and the byte behind it.
unfoldable pub decode_body : (command flag : ℕ) → List ℕ → Decoded
unfolding decode_move
decode_body command flag b =
    let id = ntohs_at b 0 in
    let did = ntohl_at b 2 in
    if command == 1
    then some (
      0,
      (if flag == 0
          then Request.lock id (ntohl_at b 2) (ntohl_at b 6)
          else Request.unlock id (ntohl_at b 2) (ntohl_at b 6)),
    )
    else if command == 4
    then some (0, Request.close_fork id)
    else if command == 6
    then last_path id (drop 6 b) (Request.create_dir did)
    else if command == 7
    then last_path id (drop 6 b) (Request.create_file flag did)
    else if command == 8
    then last_path id (drop 6 b) (Request.delete did)
    else if command == 9
    then last_path id (drop 16 b)
        (Request.enumerate did (ntohs_at b 6) (ntohs_at b 8) (ntohs_at b 10) (ntohs_at b 12))
    else if command == 11
    then some (0, Request.flush_fork id)
    else if command == 17
    then some (id, Request.get_vol_parms (ntohs_at b 2))
    else if command == 21
    then some (0, Request.map_id flag (ntohl_at b 0))
    else if command == 23
    then decode_move id did (ntohl_at b 6) (drop 10 b)
    else if command == 26
    then last_path id (drop 10 b) (Request.open_fork flag did (ntohs_at b 8))
    else if command == 27
    then some (0, Request.read id (ntohl_at b 2) (ntohl_at b 6))
    else if command == 33
    then some (0, Request.write id (ntohl_at b 2) (ntohl_at b 6) (drop 10 b))
    else if command == 34
    then last_path id (drop 10 b) (Request.get_file_dir_parms did (ntohs_at b 6) (ntohs_at b 8))
    else if command == 48
    then some (id, Request.open_dt)
    else if command == 58
    then last_path id (drop 6 b) (Request.get_comment did)
    else if command == 59
    then some (
      0,
      (if flag == 0
          then Request.lock_ext id (ntoh64_at b 2) (ntoh64_at b 10)
          else Request.unlock_ext id (ntoh64_at b 2) (ntoh64_at b 10)),
    )
    else if command == 60
    then some (0, Request.read_ext id (ntoh64_at b 2) (ntoh64_at b 10))
    else if command == 61
    then some (0, Request.write_ext id (ntoh64_at b 2) (ntoh64_at b 10) (drop 18 b))
    else if command == 68
    then last_path id (drop 20 b)
        (Request.enumerate_ext2 did (ntohs_at b 6) (ntohs_at b 8) (ntohs_at b 10) (ntohl_at b 12))
    else none

unfoldable pub decode : List ℕ → Decoded
unfolding decode_body
decode [] = none
decode (command ∷ []) = none
decode (command ∷ flag ∷ b) = decode_body command flag b
