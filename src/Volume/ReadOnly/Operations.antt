-- ===== src/Volume/ReadOnly/Operations.antt =====
-- The operations of lib/midlevel.c that change files leave a volume alone that is read only.
use time_capsule_mount.Prelude.{ℕ, CString, ltb}
use time_capsule_mount.Afp.Session.{get}
use time_capsule_mount.Volume.Create.{ml_creat, ml_mkdir}
use time_capsule_mount.Volume.Remove.{ml_unlink, ml_rmdir, ml_rename}
use time_capsule_mount.Volume.Owner.{ml_chmod, ml_chown, ml_utime}
use time_capsule_mount.Volume.Truncate.{ml_truncate, ml_symlink}
use time_capsule_mount.Volume.ReadOnly.{Keeps, guard_rules, get-Keeps, split-Keeps, bind-Keeps}

pub ml_creat-Keeps : (path : CString) (mode : ℕ) → Keeps (ml_creat path mode)
unfolding ml_creat
ml_creat-Keeps path mode = search guard_rules

pub ml_mkdir-Keeps : (path : CString) → Keeps (ml_mkdir path)
unfolding ml_mkdir
ml_mkdir-Keeps path = search guard_rules

pub ml_unlink-Keeps : (path : CString) → Keeps (ml_unlink path)
unfolding ml_unlink
ml_unlink-Keeps path = search guard_rules

pub ml_rmdir-Keeps : (path : CString) → Keeps (ml_rmdir path)
unfolding ml_rmdir
ml_rmdir-Keeps path = search guard_rules

pub ml_rename-Keeps : (path_from path_to : CString) → Keeps (ml_rename path_from path_to)
unfolding ml_rename
ml_rename-Keeps path_from path_to = search guard_rules

pub ml_chmod-Keeps : (path : CString) (mode : ℕ) → Keeps (ml_chmod path mode)
unfolding ml_chmod
ml_chmod-Keeps path mode = search guard_rules

pub ml_chown-Keeps : (path : CString) → Keeps (ml_chown path)
unfolding ml_chown
ml_chown-Keeps path = search guard_rules

pub ml_utime-Keeps : (path : CString) (modtime : ℕ) → Keeps (ml_utime path modtime)
unfolding ml_utime
ml_utime-Keeps path modtime = search guard_rules

pub ml_truncate-Keeps : (path : CString) → Keeps (ml_truncate path)
unfolding ml_truncate
ml_truncate-Keeps path = search guard_rules

pub ml_symlink-Keeps : (path1 path2 : CString) → Keeps (ml_symlink path1 path2)
unfolding ml_symlink
ml_symlink-Keeps path1 path2 =
    bind-Keeps get _ get-Keeps
      λ s. split-Keeps (ltb s.av_number 30) _ _ (search guard_rules) (search guard_rules)
