-- ===== src/Reply/Values.antt =====
-- What a server writes into a block of lib/proto_replyblock.c: the values with their bounds, and where
-- each is stored in the struct of the client.
use time_capsule_mount.Prelude.{
  ℕ, ◌+◌, ◌^◌, ◌≤◌, ◌<◌, ◌≡◌, refl, true, List, ◌++◌, CString, length, drop,
}
use time_capsule_mount.Afp.Types.{UnixPrivs}
use time_capsule_mount.Afp.Bits
use time_capsule_mount.Reply.Pascal.{IsString, copy_to_pascal, copy_to_pascal_two}
use time_capsule_mount.Reply.Block.{has, set_uid, set_gid}
use time_capsule_mount.Volume.Names.{max_path}
use time_capsule_mount.Reply.Fields.{Place}

-- What a server says of a file or directory. The offsets are those of the names in the block.
pub record Values : Type 0 where
  pub attributes : ℕ
  pub did : ℕ
  pub creation_date : ℕ
  pub modification_date : ℕ
  pub backup_date : ℕ
  pub finderinfo : List ℕ
  pub long_offset : ℕ
  pub long_name : CString
  pub short_offset : ℕ
  pub fileid : ℕ
  pub offspring : ℕ
  pub owner : ℕ
  pub group : ℕ
  pub accessrights : ℕ
  pub data_len : ℕ
  pub rsrc_len : ℕ
  pub ext_data_len : ℕ
  pub launch_limit : ℕ
  pub utf8_offset : ℕ
  pub utf8_name : CString
  pub ext_rsrc_len : ℕ
  pub unixprivs : UnixPrivs

-- The values fit their fields.
pub record AreSmall (v : Values) : Type 0 where
  pub attributes : v.attributes < 2 ^ 16
  pub did : v.did < 2 ^ 32
  pub creation_date : v.creation_date < 2 ^ 32
  pub modification_date : v.modification_date < 2 ^ 32
  pub backup_date : v.backup_date < 2 ^ 32
  pub finderinfo : length v.finderinfo ≡ 32
  pub long_offset : v.long_offset < 2 ^ 16
  pub long_name : IsString v.long_name
  pub long_length : length v.long_name < 256
  pub fileid : v.fileid < 2 ^ 32
  pub offspring : v.offspring < 2 ^ 16
  pub owner : v.owner < 2 ^ 32
  pub group : v.group < 2 ^ 32
  pub accessrights : v.accessrights < 2 ^ 32
  pub data_len : v.data_len < 2 ^ 32
  pub rsrc_len : v.rsrc_len < 2 ^ 32
  pub ext_data_len : v.ext_data_len < 2 ^ 64
  pub utf8_offset : v.utf8_offset < 2 ^ 16
  pub utf8_name : IsString v.utf8_name
  pub utf8_length : length v.utf8_name ≤ max_path
  pub utf8_some : 0 < length v.utf8_name
  pub ext_rsrc_len : v.ext_rsrc_len < 2 ^ 64
  pub uid : v.unixprivs.uid < 2 ^ 32
  pub gid : v.unixprivs.gid < 2 ^ 32
  pub permissions : v.unixprivs.permissions < 2 ^ 32
  pub ua_permissions : v.unixprivs.ua_permissions < 2 ^ 32

-- The names that the bitmap asks for stand in the block where the offsets say; a hint of four bytes
-- stands before the UTF-8 name.
pub record NamesStand (bitmap : ℕ) (buf : List ℕ) (v : Values) : Type 0 where
  pub long_rest : List ℕ
  pub long_at :
      has bitmap Bits.long_name_bit ≡ true
      → drop v.long_offset buf ≡ copy_to_pascal v.long_name ++ long_rest
  pub utf8_rest : List ℕ
  pub utf8_at :
      has bitmap Bits.utf8_name_bit ≡ true
      → drop (v.utf8_offset + 4) buf ≡ copy_to_pascal_two v.utf8_name ++ utf8_rest

abbrev pub same : ℕ → ℕ
same n = n

abbrev pub at_attributes : Place
at_attributes = record {
  put = λ n f. record f { attributes = n };
  get = λ f. f.attributes;
  put-get = λ f. refl;
}

abbrev pub at_did : Place
at_did = record { put = λ n f. record f { did = n }; get = λ f. f.did; put-get = λ f. refl }

abbrev pub at_creation : Place
at_creation = record {
  put = λ n f. record f { creation_date = n };
  get = λ f. f.creation_date;
  put-get = λ f. refl;
}

abbrev pub at_modification : Place
at_modification = record {
  put = λ n f. record f { modification_date = n };
  get = λ f. f.modification_date;
  put-get = λ f. refl;
}

abbrev pub at_backup : Place
at_backup = record {
  put = λ n f. record f { backup_date = n };
  get = λ f. f.backup_date;
  put-get = λ f. refl;
}

abbrev pub at_fileid : Place
at_fileid = record {
  put = λ n f. record f { fileid = n };
  get = λ f. f.fileid;
  put-get = λ f. refl;
}

abbrev pub at_offspring : Place
at_offspring = record {
  put = λ n f. record f { offspring = n };
  get = λ f. f.offspring;
  put-get = λ f. refl;
}

abbrev pub at_uid : Place
at_uid = record { put = set_uid; get = λ f. f.unixprivs.uid; put-get = λ f. refl }

abbrev pub at_gid : Place
at_gid = record { put = set_gid; get = λ f. f.unixprivs.gid; put-get = λ f. refl }

abbrev pub at_access : Place
at_access = record {
  put = λ n f. record f { accessrights = n };
  get = λ f. f.accessrights;
  put-get = λ f. refl;
}

abbrev pub at_size : Place
at_size = record { put = λ n f. record f { size = n }; get = λ f. f.size; put-get = λ f. refl }

abbrev pub at_resourcesize : Place
at_resourcesize = record {
  put = λ n f. record f { resourcesize = n };
  get = λ f. f.resourcesize;
  put-get = λ f. refl;
}
