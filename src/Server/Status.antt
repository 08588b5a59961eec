-- ===== src/Server/Status.antt =====
-- dsi_getstatus_reply of lib/dsi.c: what a server tells of itself before a session. `block` is the packet
-- after its DSI header, which begins at an even address. `none` is a read behind its end.
use mathlib.Core.Option
use time_capsule_mount.Prelude.{
  ℕ, ◌+◌, ◌%◌, Option, none, some, List, CString, ◌==◌, leb, ltb, if◌then◌else◌, length, take, drop,
}
use time_capsule_mount.Dsi.Wire.{ntohs_at}
use time_capsule_mount.Reply.Block.{has}
use time_capsule_mount.Reply.Pascal.{copy_from_pascal}
use time_capsule_mount.Server.Versions.{dsi_parse_versions, dsi_parse_uams}

-- The fields of struct afp_server that are stored.
pub record Told : Type 0 where
  pub machine_type : CString
  pub versions : List ℕ
  pub supported_uams : ℕ
  pub icon : List ℕ
  pub flags : ℕ
  pub server_name : CString
  pub signature : List ℕ
  pub server_name_utf8 : CString
  pub server_name_printable : CString

-- An offset that stands at i, and `count` bytes from i on.
abbrev pub offset_at : List ℕ → ℕ → Option ℕ
offset_at block i = if leb (i + 2) (length block) then some (ntohs_at block i) else none

abbrev pub bytes_at : List ℕ → ℕ → ℕ → Option (List ℕ)
bytes_at block i count =
    if leb (i + count) (length block) then some (take count (drop i block)) else none

-- AFP_MACHINETYPE_LEN, AFP_SERVER_NAME_LEN and AFP_SERVER_NAME_UTF8_LEN
abbrev pub machinetype_len : ℕ
machinetype_len = 33

abbrev pub server_name_len : ℕ
server_name_len = 33

abbrev pub server_name_utf8_len : ℕ
server_name_utf8_len = 255

infixl 5 ◌>>=◌
abbrev ◌>>=◌ : {A B : Type 0} → Option A → (A → Option B) → Option B
none >>= k = none
some a >>= k = k a

-- The icon is optional.
unfoldable pub read_icon : List ℕ → List ℕ → Option (List ℕ)
read_icon block old =
    let offset = ntohs_at block 6 in if offset == 0 then some old else bytes_at block offset 256

-- The UTF-8 name behind its hint; some servers put it one byte further.
unfoldable pub read_utf8_name : List ℕ → (offset : ℕ) → Option CString
read_utf8_name block offset =
    elim (copy_from_pascal (drop (offset + 1) block) server_name_utf8_len) [
      | none ↦ none
      | some (len, name) ↦
          if len == 0
          then Option.map (λ r. r.1)
              (copy_from_pascal (drop (offset + 2) block) server_name_utf8_len)
          else some name
    ]

-- convert_utf8dec_to_utf8pre, which works on the tables of lib/unicode.c, and iconv from UTF-8 to
-- MACINTOSH, which may be missing.
module _ (to_utf8pre : CString → CString) (iconv : Option (CString → CString)) where
  -- The name, from the offset at i on. 0x200 is kSupportsUTF8SrvrName.
  unfoldable pub with_name : List ℕ → (i : ℕ) → Told → Option Told
  unfolding read_utf8_name
  with_name block i t =
      if has t.flags 0x200
      then (do
        offset ← offset_at block i
        name ← read_utf8_name block offset
        some (record t { server_name_utf8 = name; server_name_printable = to_utf8pre name }))
      else (elim iconv [
        | none ↦ some t
        | some convert ↦ some (record t { server_name_printable = convert t.server_name })
      ])

  -- The offsets of the network addresses and of the directory names are passed over. 0x20 is
  -- kSupportsTCP, and 0x100 kSupportsDirServices.
  unfoldable pub dsi_getstatus_reply : List ℕ → Told → Option Told
  unfolding with_name read_icon
  dsi_getstatus_reply block old = if ltb (length block) 18 then some old else (do
    machine ← copy_from_pascal (drop (ntohs_at block 0) block) machinetype_len
    versions ← dsi_parse_versions (drop (ntohs_at block 2) block)
    uams ← dsi_parse_uams (drop (ntohs_at block 4) block)
    icon ← read_icon block old.icon
    let flags = ntohs_at block 8
    name ← copy_from_pascal (drop 10 block) server_name_len
    let p = name.0 + 11
    let even = p + p % 2
    offset ← offset_at block even
    signature ← bytes_at block offset 16
    with_name block
        (even + 2 + (if has flags 0x20 then 2 else 0) + (if has flags 0x100 then 2 else 0))
        (record old {
          machine_type = machine.1;
          versions = versions;
          supported_uams = uams;
          icon = icon;
          flags = flags;
          server_name = name.1;
          signature = signature;
        }))
