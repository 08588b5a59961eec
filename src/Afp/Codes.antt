-- ===== src/Afp/Codes.antt =====
-- The AFP result codes of include/afpfs-ng/afp_protocol.h, as the `int` that the calls return.
use time_capsule_mount.Prelude.{ℤ, pos, negsuc}

abbrev pub no_err : ℤ
no_err = pos 0

abbrev pub access_denied : ℤ
access_denied = negsuc 4999

abbrev pub auth_continue : ℤ
auth_continue = negsuc 5000

abbrev pub bad_uam : ℤ
bad_uam = negsuc 5001

abbrev pub bad_vers_num : ℤ
bad_vers_num = negsuc 5002

abbrev pub bitmap_err : ℤ
bitmap_err = negsuc 5003

abbrev pub deny_conflict : ℤ
deny_conflict = negsuc 5005

abbrev pub dir_not_empty : ℤ
dir_not_empty = negsuc 5006

abbrev pub disk_full : ℤ
disk_full = negsuc 5007

abbrev pub eof_err : ℤ
eof_err = negsuc 5008

abbrev pub file_busy : ℤ
file_busy = negsuc 5009

abbrev pub flat_vol : ℤ
flat_vol = negsuc 5010

abbrev pub item_not_found : ℤ
item_not_found = negsuc 5011

abbrev pub lock_err : ℤ
lock_err = negsuc 5012

abbrev pub misc_err : ℤ
misc_err = negsuc 5013

abbrev pub no_more_locks : ℤ
no_more_locks = negsuc 5014

abbrev pub no_server : ℤ
no_server = negsuc 5015

abbrev pub object_exists : ℤ
object_exists = negsuc 5016

abbrev pub object_not_found : ℤ
object_not_found = negsuc 5017

abbrev pub param_err : ℤ
param_err = negsuc 5018

abbrev pub range_not_locked : ℤ
range_not_locked = negsuc 5019

abbrev pub call_not_supported : ℤ
call_not_supported = negsuc 5023

abbrev pub object_type_err : ℤ
object_type_err = negsuc 5024

abbrev pub too_many_files_open : ℤ
too_many_files_open = negsuc 5025

abbrev pub server_going_down : ℤ
server_going_down = negsuc 5026

abbrev pub cant_rename : ℤ
cant_rename = negsuc 5027

abbrev pub dir_not_found : ℤ
dir_not_found = negsuc 5028

abbrev pub vol_locked : ℤ
vol_locked = negsuc 5030

abbrev pub object_locked : ℤ
object_locked = negsuc 5031

abbrev pub user_not_auth : ℤ
user_not_auth = negsuc 5022

-- What `dsi_send` and the request builders return when they fail by themselves.
abbrev pub minus_one : ℤ
minus_one = negsuc 0

abbrev pub pwd_expired_err : ℤ
pwd_expired_err = negsuc 5041

abbrev pub pwd_needs_change_err : ℤ
pwd_needs_change_err = negsuc 5044
