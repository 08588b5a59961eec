-- ===== src/Dsi/Wire.antt =====
-- Bytes in network order, and struct dsi_header of lib/dsi_protocol.h.
use time_capsule_mount.Prelude.{
  ℕ, ◌+◌, ◌*◌, ◌/◌, ◌%◌, ◌^◌, ◌<◌, ◌≡◌, List, [], ◌∷◌, ◌++◌, arith, get_or,
}

-- A byte at an offset of a buffer. Where the buffer ends before, C reads what lies behind it; the
-- callers test the length first.
abbrev pub byte_at : List ℕ → ℕ → ℕ
byte_at buf i = get_or buf i 0

-- ntohs and ntohl of the field at an offset
unfoldable pub ntohs_at : List ℕ → ℕ → ℕ
ntohs_at buf i = byte_at buf i * 256 + byte_at buf (i + 1)

unfoldable pub ntohl_at : List ℕ → ℕ → ℕ
unfolding ntohs_at
ntohl_at buf i = ntohs_at buf i * 65536 + ntohs_at buf (i + 2)

-- htons and htonl
unfoldable pub htons : ℕ → List ℕ
htons n = n / 256 % 256 ∷ n % 256 ∷ []

unfoldable pub htonl : ℕ → List ℕ
unfolding htons
htonl n = htons (n / 65536) ++ htons (n % 65536)

-- struct dsi_header, without `reserved`
pub record Header : Type 0 where
  pub flags : ℕ
  pub command : ℕ
  pub requestid : ℕ
  pub return_code : ℕ
  pub length_of_rest : ℕ

abbrev pub header_size : ℕ
header_size = 16

-- (struct dsi_header *) buf, its fields in host order
unfoldable pub read_header : List ℕ → Header
unfolding ntohs_at ntohl_at
read_header buf = record {
  flags = byte_at buf 0;
  command = byte_at buf 1;
  requestid = ntohs_at buf 2;
  return_code = ntohl_at buf 4;
  length_of_rest = ntohl_at buf 8;
}

-- The bytes of a header, `reserved` zero.
unfoldable pub write_header : Header → List ℕ
unfolding htons htonl
write_header h =
    h.flags
    ∷ h.command
    ∷ (htons h.requestid ++ htonl h.return_code ++ htonl h.length_of_rest ++ 0 ∷ 0 ∷ 0 ∷ 0 ∷ [])

-- The fields fit their widths.
pub record Fits (h : Header) : Type 0 where
  pub flags : h.flags < 256
  pub command : h.command < 256
  pub requestid : h.requestid < 2 ^ 16
  pub return_code : h.return_code < 2 ^ 32
  pub length_of_rest : h.length_of_rest < 2 ^ 32

-- Whatever follows it on the wire, a header whose fields fit their widths is read back as it was
-- written.
pub read-write_header :
    (h : Header) (rest : List ℕ) → Fits h → read_header (write_header h ++ rest) ≡ h
unfolding read_header write_header
read-write_header h rest f = ground arith

-- The file service commands, and the AFP functions whose reply goes straight into a buffer.
abbrev pub dsi_reply : ℕ
dsi_reply = 1

abbrev pub dsi_close_session : ℕ
dsi_close_session = 1

abbrev pub dsi_command : ℕ
dsi_command = 2

abbrev pub dsi_get_status : ℕ
dsi_get_status = 3

abbrev pub dsi_open_session : ℕ
dsi_open_session = 4

abbrev pub dsi_tickle : ℕ
dsi_tickle = 5

abbrev pub dsi_write : ℕ
dsi_write = 6

abbrev pub dsi_attention : ℕ
dsi_attention = 8

abbrev pub afp_read : ℕ
afp_read = 27

abbrev pub afp_read_ext : ℕ
afp_read_ext = 60
