-- ===== src/Reply/Block.antt =====
-- parse_reply_block of lib/proto_replyblock.c: the parameters of one file or directory, in the order of
-- the bits of the bitmap. `p2` is what the block holds from there on. The source does no bounds
-- checking; `none` is a read behind the end of the block.
use Prim.Native.Nat.{bit_and}
use time_capsule_mount.Prelude.{
  ℕ, ◌+◌, ◌*◌, ◌%◌, ◌^◌, Bool, not, Option, none, some, List, [], ◌∷◌, ◌==◌, leb, if◌then◌else◌,
  length, take, drop,
}
use time_capsule_mount.Afp.Types.{FileInfo, zero_info}
use time_capsule_mount.Afp.Bits
use time_capsule_mount.Dsi.Wire.{ntohs_at, ntohl_at}
use time_capsule_mount.Volume.Names.{max_path}
use time_capsule_mount.Reply.Pascal.{copy_from_pascal, copy_from_pascal_two}

-- AD_DATE_TO_UNIX in an unsigned int
unfoldable pub date_to_unix : ℕ → ℕ
date_to_unix date = (date + 946684800) % 2 ^ 32

-- ntoh64 of the field at the front
unfoldable pub ntoh64 : List ℕ → ℕ
unfolding ntohl_at
ntoh64 p = ntohl_at p 0 * 2 ^ 32 + ntohl_at p 4

-- One `if (bitmap & bit)`: how far p2 moves, and what is stored from the bytes there.
pub record Field : Type 0 where
  pub present : Bool
  pub width : ℕ
  pub store : List ℕ → FileInfo → Option FileInfo

-- The fields one after the other.
unfoldable pub parse_fields : List Field → List ℕ → FileInfo → Option FileInfo
parse_fields [] p2 filecur = some filecur
parse_fields (f ∷ fs) p2 filecur =
    let skipped = parse_fields fs p2 filecur in
    let taken : Option FileInfo = elim (f.store (take f.width p2) filecur) [
      | none ↦ none
      | some filecur ↦ parse_fields fs (drop f.width p2) filecur
    ] in
    if f.present then (if leb f.width (length p2) then taken else none) else skipped

abbrev pub has : ℕ → ℕ → Bool
has bitmap bit = not (bit_and bitmap bit == 0)

-- Fields of 2, 4 and 8 bytes, and the ones that are passed over.
abbrev pub short : Bool → (ℕ → FileInfo → FileInfo) → Field
short present set = record {
  present = present;
  width = 2;
  store = λ p filecur. some (set (ntohs_at p 0) filecur);
}

abbrev pub long : Bool → (ℕ → FileInfo → FileInfo) → Field
long present set = record {
  present = present;
  width = 4;
  store = λ p filecur. some (set (ntohl_at p 0) filecur);
}

abbrev pub long_long : Bool → (ℕ → FileInfo → FileInfo) → Field
long_long present set = record {
  present = present;
  width = 8;
  store = λ p filecur. some (set (ntoh64 p) filecur);
}

abbrev pub passed : Bool → ℕ → Field
passed present width = record {
  present = present;
  width = width;
  store = λ p filecur. some filecur;
}

unfoldable pub long_name_field : List ℕ → List ℕ → FileInfo → Option FileInfo
long_name_field buf p filecur = elim (copy_from_pascal (drop (ntohs_at p 0) buf) max_path) [
  | none ↦ none
  | some (_, name) ↦ some (record filecur { name = name })
]

unfoldable pub utf8_name_field : List ℕ → List ℕ → FileInfo → Option FileInfo
utf8_name_field buf p filecur =
    elim (copy_from_pascal_two filecur.name (drop (ntohs_at p 0 + 4) buf) max_path) [
      | none ↦ none
      | some (_, name) ↦ some (record filecur { name = name })
    ]

unfoldable pub unix_privs : List ℕ → FileInfo → Option FileInfo
unix_privs p filecur = some (record filecur {
  unixprivs = record {
    uid = ntohl_at p 0;
    gid = ntohl_at p 4;
    permissions = ntohl_at p 8;
    ua_permissions = ntohl_at p 12;
  };
})

abbrev pub set_uid : ℕ → FileInfo → FileInfo
set_uid uid filecur =
    let u = filecur.unixprivs in record filecur { unixprivs = record u { uid = uid } }

abbrev pub set_gid : ℕ → FileInfo → FileInfo
set_gid gid filecur =
    let u = filecur.unixprivs in record filecur { unixprivs = record u { gid = gid } }

abbrev common_fields : ℕ → List ℕ → List Field → List Field
common_fields bitmap buf rest =
    short (has bitmap Bits.attribute_bit) (λ n f. record f { attributes = n })
    ∷ long (has bitmap Bits.parent_dir_id_bit) (λ n f. record f { did = n })
    ∷ long (has bitmap Bits.create_date_bit) (λ n f. record f { creation_date = date_to_unix n })
    ∷ long (has bitmap Bits.mod_date_bit) (λ n f. record f { modification_date = date_to_unix n })
    ∷ long (has bitmap Bits.backup_date_bit) (λ n f. record f { backup_date = date_to_unix n })
    ∷ record {
      present = has bitmap Bits.finder_info_bit;
      width = 32;
      store = λ p f. some (record f { finderinfo = p });
    }
    ∷ record { present = has bitmap Bits.long_name_bit; width = 2; store = long_name_field buf }
    ∷ passed (has bitmap Bits.short_name_bit) 2
    ∷ long (has bitmap Bits.node_id_bit) (λ n f. record f { fileid = n })
    ∷ rest

abbrev directory_fields : ℕ → List Field → List Field
directory_fields bitmap rest =
    short (has bitmap Bits.offspring_count_bit) (λ n f. record f { offspring = n })
    ∷ long (has bitmap Bits.owner_id_bit) set_uid
    ∷ long (has bitmap Bits.group_id_bit) set_gid
    ∷ long (has bitmap Bits.access_rights_bit) (λ n f. record f { accessrights = n })
    ∷ rest

abbrev file_fields : ℕ → List Field → List Field
file_fields bitmap rest =
    long (has bitmap Bits.data_fork_len_bit) (λ n f. record f { size = n })
    ∷ long (has bitmap Bits.rsrc_fork_len_bit) (λ n f. record f { resourcesize = n })
    ∷ long_long (has bitmap Bits.ext_data_fork_len_bit) (λ n f. record f { size = n })
    ∷ passed (has bitmap Bits.launch_limit_bit) 2
    ∷ rest

abbrev last_fields : ℕ → List ℕ → List Field
last_fields bitmap buf =
    record { present = has bitmap Bits.utf8_name_bit; width = 6; store = utf8_name_field buf }
    ∷ long_long (has bitmap Bits.ext_rsrc_fork_len_bit) (λ n f. record f { resourcesize = n })
    ∷ record { present = has bitmap Bits.unix_privs_bit; width = 16; store = unix_privs }
    ∷ []

-- The fields of a block with this bitmap. `buf` is the whole block, into which names are offsets.
unfoldable pub fields : (isdir : Bool) → ℕ → List ℕ → List Field
fields isdir bitmap buf = common_fields bitmap buf (
    if isdir
    then directory_fields bitmap (last_fields bitmap buf)
    else file_fields bitmap (last_fields bitmap buf))

unfoldable pub parse_reply_block :
    (isdir : Bool) → (filebitmap dirbitmap : ℕ) → List ℕ → Option FileInfo
unfolding parse_fields fields
parse_reply_block isdir filebitmap dirbitmap buf =
    let bitmap = (if isdir then dirbitmap else filebitmap) % 2 ^ 16 in
    parse_fields (fields isdir bitmap buf) buf (record zero_info { isdir = isdir })
