-- ===== src/Fuse/Opening.antt =====
-- Opening a file through FUSE: fuse_open of fuse/fuse_int.c on ml_open of lib/midlevel.c.
use time_capsule_mount.Prelude.{
  ℕ, ◌≡◌, ◌≤◌, refl, true, none, some, CString, neg, if◌then◌else◌, Bool-cases, Option-cases, inl,
  inr, arith,
}
use time_capsule_mount.Afp.Session.{Session, volume_is_readonly, get, pure, ◌>>=◌}
use time_capsule_mount.Volume.Control.{from_option}
use time_capsule_mount.Volume.Names.{convert_path_to_afp, invalid_filename, max_path}
use time_capsule_mount.Volume.Open.{ml_open}
use time_capsule_mount.Fuse.Operations.{fuse_open}
use time_capsule_mount.Afp.Errno.{einval, enametoolong, eacces}

-- Why the file is not opened.
unfoldable pub refused_errno : Session → CString → ℕ
refused_errno s path = elim (convert_path_to_afp s.path_encoding path max_path) [
  | none ↦ einval
  | some converted_path ↦
      if invalid_filename s.av_number s.path_encoding converted_path then enametoolong else eacces
]

-- On a volume that is read only fuse_open opens no file, not even for reading: for every path it
-- returns a negative number, which is -EACCES for a path that can be converted and has no name that is
-- too long, sets no file handle, sends nothing and leaves the session as it was.
pub fuse_open-refused_errno :
    (tries : ℕ) (path : CString) (s : Session)
    → volume_is_readonly s ≡ true
    → (fuse_open tries path s ≡ (some (neg (refused_errno s path), none), s))
      × (1 ≤ refused_errno s path)
unfolding fuse_open ml_open ◌>>=◌ get pure from_option refused_errno
fuse_open-refused_errno tries path s h =
    elim (Option-cases (convert_path_to_afp s.path_encoding path max_path)) [
      | inl e ↦ (rw (e, ml_open, refused_errno) refl, rw (e, refused_errno) (omega arith))
      | inr (c, e) ↦ elim (Bool-cases (invalid_filename s.av_number s.path_encoding c)) [
        | inl i ↦ (rw (e, i, ml_open, refused_errno) refl, rw (e, i, refused_errno) (omega arith))
        | inr i ↦
            (rw (e, i, h, ml_open, refused_errno) refl, rw (e, i, refused_errno) (omega arith))
      ]
    ]
