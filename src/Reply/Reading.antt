-- ===== src/Reply/Reading.antt =====
-- parse_reply_block of lib/proto_replyblock.c on a block as the protocol lays it out.
use time_capsule_mount.Prelude.{
  ℕ, ◌+◌, ◌%◌, ◌^◌, ◌<◌, ◌≡◌, refl, sym, ap, ◌∙◌, Bool, true, false, some, List, [], ◌∷◌, ◌++◌,
  if◌then◌else◌, length, drop, arith,
}
use time_capsule_mount.Afp.Types.{FileInfo, zero_info}
use time_capsule_mount.Afp.Bits
use time_capsule_mount.Dsi.Wire.{ntohs_at, ntohl_at, htons, htonl}
use time_capsule_mount.Reply.Pascal.{
  copy_from_pascal, copy_from_pascal_two, copy_from_pascal-copy_to_pascal,
  copy_from_pascal_two-copy_to_pascal_two,
}
use time_capsule_mount.Reply.Block.{
  has, date_to_unix, long_name_field, utf8_name_field, unix_privs, fields, parse_fields,
  parse_reply_block,
}
use time_capsule_mount.Volume.Names.{max_path}
use time_capsule_mount.Reply.Fields.{
  Column, written, result, fields_of, parse_fields-written, short_column, long_column,
  long_long_column, passed_column, length-htons, ntohs-htons, ntohs-htons_behind,
}
use time_capsule_mount.Reply.Values.{
  Values, AreSmall, NamesStand, same, at_attributes, at_did, at_creation, at_modification,
  at_backup, at_fileid, at_offspring, at_uid, at_gid, at_access, at_size, at_resourcesize,
}
use time_capsule_mount.Reply.Written.{described, privs_bytes, write_block}

module _ (bitmap : ℕ) (buf : List ℕ) (v : Values) (small : AreSmall v)
    (names : NamesStand bitmap buf v) where
  long_name_stored :
      (f : FileInfo)
      → has bitmap Bits.long_name_bit ≡ true
      → long_name_field buf (htons v.long_offset) f ≡ some (record f { name = v.long_name })
  unfolding long_name_field
  long_name_stored f e =
      let read : copy_from_pascal (drop (ntohs_at (htons v.long_offset) 0) buf) max_path
          ≡ some (length v.long_name, v.long_name) =
        ap (λ p. copy_from_pascal p max_path)
          (ap (λ n. drop n buf) (ntohs-htons v.long_offset small.long_offset) ∙ names.long_at e)
        ∙ copy_from_pascal-copy_to_pascal v.long_name names.long_rest max_path small.long_name
            (omega (arith, small.long_length)) small.long_length in
      rw (read, long_name_field) refl

  utf8_name_stored :
      (f : FileInfo)
      → has bitmap Bits.utf8_name_bit ≡ true
      → utf8_name_field buf (htons v.utf8_offset ++ 0 ∷ 0 ∷ 0 ∷ 0 ∷ []) f
        ≡ some (record f { name = v.utf8_name })
  unfolding utf8_name_field
  utf8_name_stored f e =
      let hint : List ℕ = 0 ∷ 0 ∷ 0 ∷ 0 ∷ [] in
      let read : copy_from_pascal_two f.name
            (drop (ntohs_at (htons v.utf8_offset ++ hint) 0 + 4) buf) max_path
          ≡ some (length v.utf8_name, v.utf8_name) =
        ap (λ p. copy_from_pascal_two f.name p max_path)
          (ap (λ n. drop (n + 4) buf) (ntohs-htons_behind v.utf8_offset hint small.utf8_offset)
            ∙ names.utf8_at e)
        ∙ copy_from_pascal_two-copy_to_pascal_two v.utf8_name names.utf8_rest max_path
            small.utf8_name small.utf8_length f.name small.utf8_some
            (omega (arith, small.utf8_length)) in
      rw (read, utf8_name_field) refl

  long_name_column : Column
  long_name_column = record {
    field = record {
      present = has bitmap Bits.long_name_bit;
      width = 2;
      store = long_name_field buf;
    };
    bytes = htons v.long_offset;
    becomes =
        λ f. record f { name = if has bitmap Bits.long_name_bit then v.long_name else f.name };
    fits = length-htons v.long_offset;
    stores = λ f e. rw e (long_name_stored f e);
    keeps = λ f e. rw e refl;
  }

  utf8_name_column : Column
  unfolding htons
  utf8_name_column = record {
    field = record {
      present = has bitmap Bits.utf8_name_bit;
      width = 6;
      store = utf8_name_field buf;
    };
    bytes = htons v.utf8_offset ++ 0 ∷ 0 ∷ 0 ∷ 0 ∷ [];
    becomes =
        λ f. record f { name = if has bitmap Bits.utf8_name_bit then v.utf8_name else f.name };
    fits = refl;
    stores = λ f e. rw e (utf8_name_stored f e);
    keeps = λ f e. rw e refl;
  }

  finderinfo_column : Column
  finderinfo_column = record {
    field = record {
      present = has bitmap Bits.finder_info_bit;
      width = 32;
      store = λ p f. some (record f { finderinfo = p });
    };
    bytes = v.finderinfo;
    becomes = λ f. record f {
      finderinfo = if has bitmap Bits.finder_info_bit then v.finderinfo else f.finderinfo;
    };
    fits = small.finderinfo;
    stores = λ f e. rw e refl;
    keeps = λ f e. rw e refl;
  }

  unix_privs_stored :
      (f : FileInfo) → unix_privs (privs_bytes v) f ≡ some (record f { unixprivs = v.unixprivs })
  unfolding unix_privs htonl ntohl_at
  unix_privs_stored f =
      ground (arith, small.uid, small.gid, small.permissions, small.ua_permissions)

  unix_privs_column : Column
  unfolding htonl
  unix_privs_column = record {
    field = record { present = has bitmap Bits.unix_privs_bit; width = 16; store = unix_privs };
    bytes = privs_bytes v;
    becomes = λ f. record f {
      unixprivs = if has bitmap Bits.unix_privs_bit then v.unixprivs else f.unixprivs;
    };
    fits = refl;
    stores = λ f e. rw e (unix_privs_stored f);
    keeps = λ f e. rw e refl;
  }

  abbrev common_columns : List Column → List Column
  common_columns rest =
      short_column (has bitmap Bits.attribute_bit) same v.attributes at_attributes small.attributes
      ∷ long_column (has bitmap Bits.parent_dir_id_bit) same v.did at_did small.did
      ∷ long_column (has bitmap Bits.create_date_bit) date_to_unix v.creation_date at_creation
          small.creation_date
      ∷ long_column (has bitmap Bits.mod_date_bit) date_to_unix v.modification_date at_modification
          small.modification_date
      ∷ long_column (has bitmap Bits.backup_date_bit) date_to_unix v.backup_date at_backup
          small.backup_date
      ∷ finderinfo_column
      ∷ long_name_column
      ∷ passed_column (has bitmap Bits.short_name_bit) (htons v.short_offset)
      ∷ long_column (has bitmap Bits.node_id_bit) same v.fileid at_fileid small.fileid
      ∷ rest

  abbrev last_columns : List Column
  last_columns =
      utf8_name_column
      ∷ long_long_column (has bitmap Bits.ext_rsrc_fork_len_bit) same v.ext_rsrc_len at_resourcesize
          small.ext_rsrc_len
      ∷ unix_privs_column
      ∷ []

  abbrev directory_columns : List Column
  directory_columns = common_columns (
      short_column (has bitmap Bits.offspring_count_bit) same v.offspring at_offspring
        small.offspring
      ∷ long_column (has bitmap Bits.owner_id_bit) same v.owner at_uid small.owner
      ∷ long_column (has bitmap Bits.group_id_bit) same v.group at_gid small.group
      ∷ long_column (has bitmap Bits.access_rights_bit) same v.accessrights at_access
          small.accessrights
      ∷ last_columns)

  abbrev file_columns : List Column
  file_columns = common_columns (
      long_column (has bitmap Bits.data_fork_len_bit) same v.data_len at_size small.data_len
      ∷ long_column (has bitmap Bits.rsrc_fork_len_bit) same v.rsrc_len at_resourcesize
          small.rsrc_len
      ∷ long_long_column (has bitmap Bits.ext_data_fork_len_bit) same v.ext_data_len at_size
          small.ext_data_len
      ∷ passed_column (has bitmap Bits.launch_limit_bit) (htons v.launch_limit)
      ∷ last_columns)

  columns : Bool → List Column
  columns true = directory_columns
  columns false = file_columns

  fields-columns : (isdir : Bool) → fields isdir bitmap buf ≡ fields_of (columns isdir)
  unfolding htons fields columns long_name_column utf8_name_column finderinfo_column
      unix_privs_column
  fields-columns true = refl
  fields-columns false = refl

  result-columns :
      (isdir : Bool)
      → result (columns isdir) (record zero_info { isdir = isdir }) ≡ described isdir bitmap v
  unfolding result columns described long_name_column utf8_name_column finderinfo_column
      unix_privs_column
  result-columns true = refl
  result-columns false = refl

  written-columns : (isdir : Bool) → written (columns isdir) ≡ write_block isdir bitmap v
  unfolding written columns write_block long_name_column utf8_name_column finderinfo_column
      unix_privs_column
  written-columns true = refl
  written-columns false = refl

  -- A block whose fields a server writes for a bitmap, with the names that the bitmap asks for where
  -- their offsets say, is parsed without a read behind its end, into what was written: what the bitmap
  -- does not ask for is zero, a UTF-8 name goes before a long one, and an extended length before a
  -- short one.
  pub parse_reply_block-write_block :
      (isdir : Bool) (filebitmap dirbitmap : ℕ) (tail : List ℕ)
      → (if isdir then dirbitmap else filebitmap) ≡ bitmap
      → bitmap < 2 ^ 16
      → buf ≡ write_block isdir bitmap v ++ tail
      → parse_reply_block isdir filebitmap dirbitmap buf ≡ some (described isdir bitmap v)
  unfolding parse_reply_block
  parse_reply_block-write_block isdir filebitmap dirbitmap tail asked wide e =
      let start : FileInfo = record zero_info { isdir = isdir } in
      let one : (if isdir then dirbitmap else filebitmap) % 65536 ≡ bitmap = ground arith in
      ap (λ n. parse_fields (fields isdir n buf) buf start) one
      ∙ ap (λ fs. parse_fields fs buf start) (fields-columns isdir)
      ∙ ap (λ p. parse_fields (fields_of (columns isdir)) p start)
          (e ∙ ap (λ w. w ++ tail) (sym (written-columns isdir)))
      ∙ parse_fields-written (columns isdir) tail start
      ∙ ap some (result-columns isdir)
