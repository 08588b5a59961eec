-- ===== src/Fuse/Operations.antt =====
-- The functions of fuse/fuse_int.c that stand in its table afp_oper, less fuse_read. What they print is
-- left out.
use time_capsule_mount.Prelude.{
  ℕ, ◌-◌, true, false, Option, none, some, List, [], ◌∷◌, map, CString, codes, ℤ, pos, neg, ◌==ℤ◌,
  ◌==◌, if◌then◌else◌, length, take,
}
use time_capsule_mount.Afp.Errno.{eio, efault}
use time_capsule_mount.Afp.Types.{FileInfo, OpenFlags, Stat, zero_stat}
use time_capsule_mount.Afp.Session.{M, pure, ◌>>=◌}
use time_capsule_mount.Server.Volumes.{Mounts, is_unmounted, get_volume, afp_unmount_volume}
use time_capsule_mount.Volume.Meta.{strstr}
use time_capsule_mount.Volume.Create.{ml_creat, ml_mkdir}
use time_capsule_mount.Volume.Data.{ml_write, ml_close}
use time_capsule_mount.Volume.Open.{Opened, ml_open}
use time_capsule_mount.Volume.Remove.{ml_unlink, ml_rmdir, ml_rename}
use time_capsule_mount.Volume.Owner.{ml_chmod, ml_chown, ml_utime}
use time_capsule_mount.Volume.Truncate.{ml_truncate, ml_symlink}
use time_capsule_mount.Volume.Stats.{ml_getattr}
use time_capsule_mount.Volume.Composing.{Unicode}
use time_capsule_mount.Volume.Links.{ml_readlink}
use time_capsule_mount.Volume.Space.{StatVfs, ml_statfs}
use time_capsule_mount.Volume.Listing.{Listing}
use time_capsule_mount.Volume.Readdir.{Directory, ml_readdir}

unfoldable pub fuse_readlink : Unicode → CString → (size : ℕ) → M (ℤ × CString)
fuse_readlink u path size = ml_readlink u path size

unfoldable pub fuse_rmdir : CString → M ℤ
fuse_rmdir path = ml_rmdir path

unfoldable pub fuse_unlink : CString → M ℤ
fuse_unlink path = ml_unlink path

-- What fuse_readdir gives: its return value with the names that it passes to `filler`, or the failure of
-- ml_readdir to come to an end or to stay in its list.
pub data Filled : Type 0 where
  filled : ℤ → List CString → Filled
  unfinished freed : Filled

abbrev pub dots : List CString
dots = codes "." ∷ codes ".." ∷ []

-- The two names are passed before the directory is read.
abbrev pub fill : Directory → Filled
fill (Directory.directory (Listing.listed files)) =
    Filled.filled (pos 0) (codes "." ∷ codes ".." ∷ map (λ fp. fp.name) files)
fill (Directory.directory (Listing.failed e)) = Filled.filled e dots
fill (Directory.directory Listing.unfinished) = Filled.unfinished
fill Directory.freed = Filled.freed

unfoldable pub fuse_readdir : (fuel : ℕ) → CString → M Filled
fuse_readdir fuel path = do d ← ml_readdir fuel path; pure (fill d)

unfoldable pub fuse_mknod : CString → (mode : ℕ) → M ℤ
fuse_mknod path mode = ml_creat path mode

-- The open file that fi->fh points at, with its address.
pub record Handle : Type 0 where
  pub address : ℕ
  pub file : FileInfo

unfoldable pub fuse_release : CString → Handle → M ℤ
fuse_release path fh = ml_close path fh.address fh.file

-- `flags` is AFP_OPENFORK_ALLOWREAD, which is 1; ml_open takes it for flags of open(2), where 1 is
-- O_WRONLY. fi->flags is not looked at.
abbrev pub open_flags : OpenFlags
open_flags = record {
  o_wronly = true;
  o_rdwr = false;
  o_creat = false;
  o_trunc = false;
  o_append = false;
  o_largefile = false;
}

-- The return value, with fi->fh where it is set.
abbrev pub opened_handle : Opened × ℕ → Option (ℤ × Option Handle)
opened_handle (none, address) = none
opened_handle (some (ret, fp), address) =
    some (ret, if ret ==ℤ pos 0 then some (record { address = address; file = fp }) else none)

unfoldable pub fuse_open : (tries : ℕ) → CString → M (Option (ℤ × Option Handle))
fuse_open tries path = do o ← ml_open tries path open_flags; pure (opened_handle o)

unfoldable pub fuse_write : CString → List ℕ → (offset : ℕ) → Handle → M ℤ
fuse_write path bytes offset fh = ml_write path bytes offset fh.file

unfoldable pub fuse_mkdir : CString → M ℤ
fuse_mkdir path = ml_mkdir path

unfoldable pub fuse_chown : CString → M ℤ
fuse_chown path = ml_chown path

unfoldable pub fuse_truncate : CString → M ℤ
fuse_truncate path = ml_truncate path

-- A server that does not keep the extra bits is no error.
unfoldable pub fuse_chmod : CString → (mode : ℕ) → M ℤ
fuse_chmod path mode = do ret ← ml_chmod path mode; pure (if ret ==ℤ neg efault then pos 0 else ret)

unfoldable pub fuse_utime : CString → (modtime : ℕ) → M ℤ
fuse_utime path modtime = ml_utime path modtime

unfoldable pub fuse_symlink : (path1 path2 : CString) → M ℤ
fuse_symlink path1 path2 = ml_symlink path1 path2

unfoldable pub fuse_rename : (path_from path_to : CString) → M ℤ
fuse_rename path_from path_to = ml_rename path_from path_to

unfoldable pub fuse_statfs : M (ℤ × StatVfs)
fuse_statfs = ml_statfs

-- The path is cut one character before the first "(null)", unless it begins with that.
unfoldable pub without_null : CString → CString
without_null path = elim (strstr path (codes "(null)")) [
  | none ↦ path
  | some (before, behind) ↦ if length before == 0 then path else take (length before - 1) path
]

-- `none` is a null pointer.
unfoldable pub fuse_getattr : Option CString → M (ℤ × Stat)
fuse_getattr none = pure (neg eio, zero_stat)
fuse_getattr (some path) = ml_getattr (without_null path)

-- The volume is the one at place i of its server. The result is ignored.
unfoldable pub afp_destroy : (i : ℕ) → Mounts → Mounts
afp_destroy i s = elim (get_volume s.volumes i) [
  | none ↦ s
  | some v ↦ if is_unmounted v.state then s else (afp_unmount_volume i s).1
]
