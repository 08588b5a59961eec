-- ===== src/Volume/ReadOnly/Safety.antt =====
-- Any sequence of operations of lib/midlevel.c on the files of a volume that is read only.
use time_capsule_mount.Prelude.{ℕ, ◌≡◌, true, List, [], ◌∷◌, CString, All}
use time_capsule_mount.Afp.Types.{FileInfo, OpenFlags}
use time_capsule_mount.Afp.Session.{Session, volume_is_readonly, IsHarmless}
use time_capsule_mount.Volume.Create.{ml_creat, ml_mkdir}
use time_capsule_mount.Volume.Remove.{ml_unlink, ml_rmdir, ml_rename}
use time_capsule_mount.Volume.Owner.{ml_chmod, ml_chown, ml_utime}
use time_capsule_mount.Volume.Truncate.{ml_truncate, ml_symlink}
use time_capsule_mount.Volume.Data.{ml_write, ml_close}
use time_capsule_mount.Volume.Open.{ml_open}
use time_capsule_mount.Volume.Stats.{ml_getattr}
use time_capsule_mount.Volume.Reading.{ml_read}
use time_capsule_mount.Volume.Composing.{Unicode}
use time_capsule_mount.Volume.Links.{ml_readlink}
use time_capsule_mount.Volume.Readdir.{ml_readdir}
use time_capsule_mount.Volume.ReadOnly.{Quiet}
use time_capsule_mount.Volume.ReadOnly.Reading.{ml_read-Keeps}
use time_capsule_mount.Volume.ReadOnly.Directories.{ml_readlink-Keeps, ml_readdir-Keeps}
use time_capsule_mount.Volume.ReadOnly.Operations.{
  ml_creat-Keeps, ml_mkdir-Keeps, ml_unlink-Keeps, ml_rmdir-Keeps, ml_rename-Keeps, ml_chmod-Keeps,
  ml_chown-Keeps, ml_utime-Keeps, ml_truncate-Keeps, ml_symlink-Keeps,
}
use time_capsule_mount.Volume.ReadOnly.Opening.{ml_open-Keeps, ml_close-Keeps, ml_write-Keeps}
use time_capsule_mount.Volume.ReadOnly.Attributes.{ml_getattr-Keeps}

-- What a user of the volume can ask for, with its arguments.
pub data Operation : Type 0 where
  creat chmod utime : CString → ℕ → Operation
  mkdir unlink rmdir chown truncate getattr : CString → Operation
  rename symlink : CString → CString → Operation
  open_file : (tries : ℕ) → CString → OpenFlags → Operation
  write_file : CString → List ℕ → (offset : ℕ) → FileInfo → Operation
  close_file : CString → (address : ℕ) → FileInfo → Operation
  read_file : (buf : List ℕ) → CString → (size offset : ℕ) → FileInfo → Operation
  readlink : Unicode → CString → (size : ℕ) → Operation
  readdir : (fuel : ℕ) → CString → Operation

unfoldable pub perform : Operation → Session → Session
perform (creat path mode) s = (ml_creat path mode s).1
perform (chmod path mode) s = (ml_chmod path mode s).1
perform (utime path modtime) s = (ml_utime path modtime s).1
perform (mkdir path) s = (ml_mkdir path s).1
perform (unlink path) s = (ml_unlink path s).1
perform (rmdir path) s = (ml_rmdir path s).1
perform (chown path) s = (ml_chown path s).1
perform (truncate path) s = (ml_truncate path s).1
perform (getattr path) s = (ml_getattr path s).1
perform (rename path_from path_to) s = (ml_rename path_from path_to s).1
perform (symlink path1 path2) s = (ml_symlink path1 path2 s).1
perform (open_file tries path flags) s = (ml_open tries path flags s).1
perform (write_file path bytes offset fp) s = (ml_write path bytes offset fp s).1
perform (close_file path address fp) s = (ml_close path address fp s).1
perform (read_file buf path size offset fp) s = (ml_read buf path size offset fp s).1
perform (readlink u path size) s = (ml_readlink u path size s).1
perform (readdir fuel path) s = (ml_readdir fuel path s).1

unfoldable pub perform_all : List Operation → Session → Session
unfolding perform
perform_all [] s = s
perform_all (o ∷ os) s = perform_all os (perform o s)

perform-Quiet : (o : Operation) (s : Session) → Quiet s → Quiet (perform o s)
unfolding perform
perform-Quiet (creat path mode) s q = (ml_creat-Keeps path mode).at s q
perform-Quiet (chmod path mode) s q = (ml_chmod-Keeps path mode).at s q
perform-Quiet (utime path modtime) s q = (ml_utime-Keeps path modtime).at s q
perform-Quiet (mkdir path) s q = (ml_mkdir-Keeps path).at s q
perform-Quiet (unlink path) s q = (ml_unlink-Keeps path).at s q
perform-Quiet (rmdir path) s q = (ml_rmdir-Keeps path).at s q
perform-Quiet (chown path) s q = (ml_chown-Keeps path).at s q
perform-Quiet (truncate path) s q = (ml_truncate-Keeps path).at s q
perform-Quiet (getattr path) s q = (ml_getattr-Keeps path).at s q
perform-Quiet (rename path_from path_to) s q = (ml_rename-Keeps path_from path_to).at s q
perform-Quiet (symlink path1 path2) s q = (ml_symlink-Keeps path1 path2).at s q
perform-Quiet (open_file tries path flags) s q = (ml_open-Keeps tries path flags).at s q
perform-Quiet (write_file path bytes offset fp) s q = (ml_write-Keeps path bytes offset fp).at s q
perform-Quiet (close_file path address fp) s q = (ml_close-Keeps path address fp).at s q
perform-Quiet (read_file buf path size offset fp) s q =
    (ml_read-Keeps buf path size offset fp).at s q
perform-Quiet (readlink u path size) s q = (ml_readlink-Keeps u path size).at s q
perform-Quiet (readdir fuel path) s q = (ml_readdir-Keeps fuel path).at s q

-- On a volume that is read only, whatever the server answers, any sequence of these operations of
-- lib/midlevel.c on files, links and directories, those that read included, leaves the volume read only
-- and sends no request that changes it, if none was sent before.
pub perform_all-IsHarmless :
    (os : List Operation) (s : Session)
    → volume_is_readonly s ≡ true
    → All IsHarmless s.sent
    → (volume_is_readonly (perform_all os s) ≡ true) × All IsHarmless (perform_all os s).sent
unfolding perform_all
perform_all-IsHarmless [] s r h = (r, h)
perform_all-IsHarmless (o ∷ os) s r h =
    let q = perform-Quiet o s (r, h) in perform_all-IsHarmless os (perform o s) q.0 q.1
