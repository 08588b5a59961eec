-- ===== src/Afp/Types.antt =====
-- The data that the client passes about: include/afpfs-ng/afp.h. A flag word is the record of its
-- bits, and a fixed character array is the C string that it holds.
use time_capsule_mount.Prelude.{ℕ, Bool, false, List, [], CString, replicate}

-- struct afp_unixprivs
pub record UnixPrivs : Type 0 where
  pub uid : ℕ
  pub gid : ℕ
  pub permissions : ℕ
  pub ua_permissions : ℕ

-- struct afp_file_info, less its two list pointers, its icon and what nothing reads
pub record FileInfo : Type 0 where
  pub attributes : ℕ
  pub did : ℕ
  pub creation_date : ℕ
  pub modification_date : ℕ
  pub backup_date : ℕ
  pub fileid : ℕ
  pub offspring : ℕ
  pub finderinfo : List ℕ
  pub name : CString
  pub basename : CString
  pub unixprivs : UnixPrivs
  pub accessrights : ℕ
  pub isdir : Bool
  pub size : ℕ
  pub resourcesize : ℕ
  pub resource : ℕ
  pub forkid : ℕ
  pub eof : Bool

-- memset(fp, 0, sizeof(*fp))
abbrev pub zero_info : FileInfo
zero_info = record {
  attributes = 0;
  did = 0;
  creation_date = 0;
  modification_date = 0;
  backup_date = 0;
  fileid = 0;
  offspring = 0;
  finderinfo = replicate 32 0;
  name = [];
  basename = [];
  unixprivs = record { uid = 0; gid = 0; permissions = 0; ua_permissions = 0 };
  accessrights = 0;
  isdir = false;
  size = 0;
  resourcesize = 0;
  resource = 0;
  forkid = 0;
  eof = false;
}

-- The VOLUME_EXTRA_FLAGS_… word of a volume.
pub record ExtraFlags : Type 0 where
  pub chmod_known : Bool
  pub chmod_broken : Bool
  pub show_appledouble : Bool
  pub supports_unix : Bool
  pub no_locking : Bool
  pub ignore_unixprivs : Bool
  pub readonly : Bool

-- The attributes that the server gave for a volume, as far as they are tested.
pub record VolumeAttributes : Type 0 where
  pub read_only : Bool
  pub supports_utf8_names : Bool
  pub no_network_user_ids : Bool

-- enum server_type
pub data ServerType : Type 0 where
  unknown netatalk airport macintosh : ServerType

-- The open(2) flags that are tested.
pub record OpenFlags : Type 0 where
  pub o_wronly : Bool
  pub o_rdwr : Bool
  pub o_creat : Bool
  pub o_trunc : Bool
  pub o_append : Bool
  pub o_largefile : Bool

-- struct stat, as far as it is filled
pub record Stat : Type 0 where
  pub st_mode : ℕ
  pub st_nlink : ℕ
  pub st_uid : ℕ
  pub st_gid : ℕ
  pub st_size : ℕ
  pub st_blksize : ℕ
  pub st_blocks : ℕ
  pub st_ctime : ℕ
  pub st_mtime : ℕ

abbrev pub zero_stat : Stat
zero_stat = record {
  st_mode = 0;
  st_nlink = 0;
  st_uid = 0;
  st_gid = 0;
  st_size = 0;
  st_blksize = 0;
  st_blocks = 0;
  st_ctime = 0;
  st_mtime = 0;
}
