-- ===== src/Afp/Bits.antt =====
-- The bitmap bits, path types, fork modes and meta kinds of include/afpfs-ng/afp_protocol.h and
-- lib/resource.h, and the file types of sys/stat.h.
use time_capsule_mount.Prelude.{ℕ}

abbrev pub attribute_bit : ℕ
attribute_bit = 1

abbrev pub parent_dir_id_bit : ℕ
parent_dir_id_bit = 2

abbrev pub create_date_bit : ℕ
create_date_bit = 4

abbrev pub mod_date_bit : ℕ
mod_date_bit = 8

abbrev pub backup_date_bit : ℕ
backup_date_bit = 0x10

abbrev pub finder_info_bit : ℕ
finder_info_bit = 0x20

abbrev pub long_name_bit : ℕ
long_name_bit = 0x40

abbrev pub short_name_bit : ℕ
short_name_bit = 0x80

abbrev pub node_id_bit : ℕ
node_id_bit = 0x100

abbrev pub offspring_count_bit : ℕ
offspring_count_bit = 0x200

abbrev pub owner_id_bit : ℕ
owner_id_bit = 0x400

abbrev pub group_id_bit : ℕ
group_id_bit = 0x800

abbrev pub access_rights_bit : ℕ
access_rights_bit = 0x1000

abbrev pub utf8_name_bit : ℕ
utf8_name_bit = 0x2000

abbrev pub unix_privs_bit : ℕ
unix_privs_bit = 0x8000

abbrev pub data_fork_len_bit : ℕ
data_fork_len_bit = 0x200

abbrev pub rsrc_fork_len_bit : ℕ
rsrc_fork_len_bit = 0x400

abbrev pub ext_data_fork_len_bit : ℕ
ext_data_fork_len_bit = 0x800

abbrev pub launch_limit_bit : ℕ
launch_limit_bit = 0x1000

abbrev pub ext_rsrc_fork_len_bit : ℕ
ext_rsrc_fork_len_bit = 0x4000

abbrev pub vol_bytes_free_bit : ℕ
vol_bytes_free_bit = 0x40

abbrev pub vol_bytes_total_bit : ℕ
vol_bytes_total_bit = 0x80

abbrev pub vol_ext_bytes_free_bit : ℕ
vol_ext_bytes_free_bit = 0x200

abbrev pub vol_ext_bytes_total_bit : ℕ
vol_ext_bytes_total_bit = 0x400

abbrev pub vol_block_size_bit : ℕ
vol_block_size_bit = 0x800

abbrev pub short_name : ℕ
short_name = 1

abbrev pub long_name : ℕ
long_name = 2

abbrev pub utf8_name : ℕ
utf8_name = 3

abbrev pub root_did : ℕ
root_did = 2

abbrev pub allow_read : ℕ
allow_read = 1

abbrev pub allow_write : ℕ
allow_write = 2

abbrev pub soft_create : ℕ
soft_create = 0

abbrev pub hard_create : ℕ
hard_create = 0x80

abbrev pub s_ifdir : ℕ
s_ifdir = 0x4000

abbrev pub s_ifreg : ℕ
s_ifreg = 0x8000

abbrev pub meta_none : ℕ
meta_none = 0

abbrev pub meta_resource : ℕ
meta_resource = 1

abbrev pub meta_appledouble : ℕ
meta_appledouble = 2

abbrev pub meta_finderinfo : ℕ
meta_finderinfo = 3

abbrev pub meta_comment : ℕ
meta_comment = 4

abbrev pub meta_server_icon : ℕ
meta_server_icon = 5
