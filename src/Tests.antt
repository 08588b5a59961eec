-- ===== src/Tests.antt =====
-- The properties at concrete inputs: a session with a small server.
pub mod Volumes
pub mod Directories
pub mod Packets
pub mod Loops
pub mod Urls
pub mod Replies
pub mod Requests
pub mod Listings
pub mod Servers
pub mod Handshakes
pub mod Fuse
pub mod Daemon
use time_capsule_mount.Prelude.{
  ℕ, Bool, true, false, Option, none, some, List, [], ◌∷◌, CString, codes, pos, str_eq, ◌==◌, ◌&&◌,
  if◌then◌else◌,
}
use time_capsule_mount.Afp.Codes.{no_err, object_not_found}
use time_capsule_mount.Afp.Types.{FileInfo, zero_info, unknown}
use time_capsule_mount.Afp.Request.{Request, Reply, get_file_dir_parms}
use time_capsule_mount.Afp.Session.{Session}

-- The ids below the root: "/a" is 20, and "b" in it is 30.
abbrev pub tree : ℕ → CString → ℕ
tree did name =
    if did == 2 && str_eq name (codes "/a")
    then 20
    else (if did == 20 && str_eq name (codes "/b") then 30 else 0)

abbrev pub directory : ℕ → FileInfo
directory id = record zero_info { isdir = true; fileid = id }

abbrev pub nothing_there : Reply
nothing_there = record {
  code = object_not_found;
  info = none;
  entries = [];
  payload = [];
  value = 0;
}

-- A server that holds these directories, and answers nothing else.
abbrev pub peer : List Request → Reply
peer (get_file_dir_parms did f d name ∷ sent) =
    if tree did name == 0
    then nothing_there
    else record nothing_there { code = no_err; info = some (directory (tree did name)) }
peer _ = nothing_there

-- An AFP 3 session on a volume that is read only.
abbrev pub session : Session
session = record {
  peer = peer;
  sent = [];
  clock = λ n. 100;
  readings = 0;
  getgid = 100;
  geteuid = 1000;
  next_address = 1;
  garbage = zero_info;
  av_number = 31;
  path_encoding = 3;
  server_type = unknown;
  tx_quantum = 2;
  rx_quantum = 1024;
  connect_time = 50;
  server_uid = 0;
  server_gid = 0;
  pw_uid = 1000;
  pw_gid = 100;
  pw_name = codes "me";
  icon = [];
  attributes = record { read_only = true; supports_utf8_names = true; no_network_user_ids = false };
  extra_flags = record {
    chmod_known = false;
    chmod_broken = false;
    show_appledouble = false;
    supports_unix = true;
    no_locking = false;
    ignore_unixprivs = false;
    readonly = false;
  };
  volume_name = codes "vol";
  dtrefnum = 0;
  mapping = 0;
  did_cache = record { base = []; hits = 0; misses = 0; expired = 0; force_removed = 0 };
  open_forks = record { address = 1; fork = 7 } ∷ [];
  f_blocks = 0;
  f_bfree = 0;
  f_bsize = 0;
}
