-- ===== src/Tests/Replies.antt =====
-- The parser of reply blocks at concrete inputs.
use time_capsule_mount.Prelude.{
  ℕ, ◌≡◌, refl, true, some, List, [], ◌∷◌, ◌++◌, codes, arith, replicate, pos,
}
use time_capsule_mount.Dsi.Wire.{htons, htonl}
use time_capsule_mount.Reply.Block.{parse_reply_block}
use time_capsule_mount.Reply.Fields.{hton64}
use time_capsule_mount.Reply.Pascal.{copy_to_pascal_two}
use time_capsule_mount.Reply.Enumerate.{Handled, afp_enumerateext2_reply}
use time_capsule_mount.Reply.Entries.{
  Entry, IsEntry, write_reply, afp_enumerateext2_reply-write_reply,
}
use time_capsule_mount.Reply.Values.{Values, AreSmall, NamesStand}
use time_capsule_mount.Reply.Written.{write_block, described}
use time_capsule_mount.Reply.Reading.{parse_reply_block-write_block}

abbrev values : Values
values = record {
  attributes = 3;
  did = 2;
  creation_date = 0;
  modification_date = 0;
  backup_date = 0;
  finderinfo = replicate 32 0;
  long_offset = 0;
  long_name = [];
  short_offset = 0;
  fileid = 20;
  offspring = 0;
  owner = 0;
  group = 0;
  accessrights = 0;
  data_len = 0;
  rsrc_len = 0;
  ext_data_len = 0;
  launch_limit = 0;
  utf8_offset = 28;
  utf8_name = codes "dir";
  ext_rsrc_len = 0;
  unixprivs = record { uid = 501; gid = 20; permissions = 0x41ed; ua_permissions = 7 };
}

values-AreSmall : AreSmall values
values-AreSmall = record {
  attributes = omega arith;
  did = omega arith;
  creation_date = omega arith;
  modification_date = omega arith;
  backup_date = omega arith;
  finderinfo = refl;
  long_offset = omega arith;
  long_name = tt;
  long_length = omega arith;
  fileid = omega arith;
  offspring = omega arith;
  owner = omega arith;
  group = omega arith;
  accessrights = omega arith;
  data_len = omega arith;
  rsrc_len = omega arith;
  ext_data_len = omega arith;
  utf8_offset = omega arith;
  utf8_name = ground arith;
  utf8_length = omega arith;
  utf8_some = omega arith;
  ext_rsrc_len = omega arith;
  uid = omega arith;
  gid = omega arith;
  permissions = omega arith;
  ua_permissions = omega arith;
}

-- The attributes, the id, the UTF-8 name and the privileges of a directory.
abbrev bitmap : ℕ
bitmap = 0xa101

abbrev block : List ℕ
unfolding write_block htons htonl hton64 copy_to_pascal_two
block = write_block true bitmap values ++ 0 ∷ 0 ∷ 0 ∷ 0 ∷ copy_to_pascal_two (codes "dir")

block-NamesStand : NamesStand bitmap block values
unfolding block
block-NamesStand = record {
  long_rest = [];
  long_at = λ e. ground arith;
  utf8_rest = [];
  utf8_at = λ e. refl;
}

parse_reply_block-write_block_example :
    parse_reply_block true 0 bitmap block ≡ some (described true bitmap values)
unfolding block
parse_reply_block-write_block_example =
    parse_reply_block-write_block bitmap block values values-AreSmall block-NamesStand true 0 bitmap
      (0 ∷ 0 ∷ 0 ∷ 0 ∷ copy_to_pascal_two (codes "dir")) refl (omega arith) refl

-- A listing with this directory in it, twice.
abbrev entry : Entry
unfolding block
entry = record { isdir = true; block = block; info = described true bitmap values }

block-NamesStand_before : (rest : List ℕ) → NamesStand bitmap (block ++ rest) values
unfolding block
block-NamesStand_before rest = record {
  long_rest = [];
  long_at = λ e. ground arith;
  utf8_rest = rest;
  utf8_at = λ e. refl;
}

entry-IsEntry : IsEntry 0 bitmap entry
unfolding block entry
entry-IsEntry = record {
  small = omega arith;
  parsed = λ rest.
      parse_reply_block-write_block bitmap (block ++ rest) values values-AreSmall
        (block-NamesStand_before rest) true 0 bitmap
        (0 ∷ 0 ∷ 0 ∷ 0 ∷ copy_to_pascal_two (codes "dir") ++ rest) refl (omega arith) refl;
}

afp_enumerateext2_reply-write_reply_example :
    afp_enumerateext2_reply (pos 0) (write_reply 0 bitmap (entry ∷ entry ∷ []) ++ [])
    ≡ Handled.stored (described true bitmap values ∷ described true bitmap values ∷ [])
unfolding entry
afp_enumerateext2_reply-write_reply_example =
    afp_enumerateext2_reply-write_reply 0 bitmap (entry ∷ entry ∷ []) [] (omega arith) (omega arith)
      (omega arith) (entry-IsEntry, (entry-IsEntry, tt))
