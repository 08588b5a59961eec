-- ===== src/Volume/Remove.antt =====
-- Taking names away and changing them: ml_unlink, ml_rmdir and ml_rename of lib/midlevel.c.
use time_capsule_mount.Prelude.{
  ℕ, Bool, true, false, none, some, [], ◌∷◌, CString, ℤ, pos, neg, ◌==ℤ◌, if◌then◌else◌,
}
use time_capsule_mount.Afp.Codes.{
  no_err, access_denied, dir_not_empty, misc_err, object_exists, object_not_found, param_err,
  object_type_err, cant_rename, vol_locked, object_locked, minus_one,
}
use time_capsule_mount.Afp.Errno.{
  enoent, eio, eacces, ebusy, enotdir, eisdir, einval, erofs, enotempty,
}
use time_capsule_mount.Afp.Request.{delete, move_and_rename}
use time_capsule_mount.Afp.Session.{M, pure, ◌>>=◌, ◌>>◌}
use time_capsule_mount.Did.Lookup.{is_dir, remove_did_entry}
use time_capsule_mount.Volume.Control.{
  switch, call, with_converted, if_valid, if_writable, unless_meta,
}
use time_capsule_mount.Volume.Meta.{refuse}
use time_capsule_mount.Volume.Attr.{find_place}

unfoldable pub ml_unlink : CString → M ℤ
ml_unlink path = with_converted path λ converted_path. if_writable (
    unless_meta (refuse path) (do
      (dirid, basename) ← find_place converted_path
      directory ← is_dir dirid basename
      elim directory [
        | true ↦ pure (neg eisdir)
        | false ↦ if_valid converted_path (do
          rc ← call (delete dirid basename)
          pure (
              neg (
                switch rc
                  ((access_denied, eacces)
                    ∷ (object_locked, ebusy)
                    ∷ (object_not_found, enoent)
                    ∷ (vol_locked, eacces)
                    ∷ (object_type_err, einval)
                    ∷ (dir_not_empty, einval)
                    ∷ (misc_err, einval)
                    ∷ (param_err, einval)
                    ∷ (minus_one, einval)
                    ∷ [])
                  0)))
      ]))

-- The errno for the result of an afp_delete of a directory, and of the one in ml_rename.
unfoldable pub rmdir_errno : ℤ → ℕ
rmdir_errno rc =
    switch rc
      ((access_denied, eacces)
        ∷ (object_locked, ebusy)
        ∷ (object_not_found, enoent)
        ∷ (vol_locked, eacces)
        ∷ (dir_not_empty, enotempty)
        ∷ (object_type_err, einval)
        ∷ (misc_err, einval)
        ∷ (param_err, einval)
        ∷ (minus_one, einval)
        ∷ [])
      0

-- Any other result takes the directory out of the cache.
unfoldable pub removed : CString → ℤ → M ℤ
removed converted_path rc =
    elim (switch rc
      ((access_denied, false)
        ∷ (object_locked, false)
        ∷ (object_not_found, false)
        ∷ (vol_locked, false)
        ∷ (dir_not_empty, false)
        ∷ (object_type_err, false)
        ∷ (misc_err, false)
        ∷ (param_err, false)
        ∷ (minus_one, false)
        ∷ [])
      true) [
        | true ↦ do remove_did_entry converted_path; pure (pos 0)
        | false ↦ pure (neg (rmdir_errno rc))
      ]

unfoldable pub ml_rmdir : CString → M ℤ
ml_rmdir path = if_valid path (
    with_converted path λ converted_path. if_writable (
      unless_meta (refuse path) (do
        (dirid, basename) ← find_place converted_path
        directory ← is_dir dirid basename
        elim directory [
          | false ↦ pure (neg enotdir)
          | true ↦ do rc ← call (delete dirid basename); removed converted_path rc
        ])))

-- The errno for the second afp_moveandrename: `case kFPMiscErr` falls through to `ret=0`.
unfoldable pub again_errno : ℤ → ℕ
again_errno rc =
    switch rc
      ((object_locked, eacces)
        ∷ (access_denied, eacces)
        ∷ (cant_rename, erofs)
        ∷ (object_exists, enoent)
        ∷ (object_not_found, enoent)
        ∷ [])
      0

-- For the first: `case kFPObjectNotFound` falls through to `ret=0`.
unfoldable pub rename_errno : ℤ → ℕ
rename_errno rc =
    switch rc
      ((object_locked, eacces)
        ∷ (access_denied, eacces)
        ∷ (cant_rename, erofs)
        ∷ (object_not_found, 0)
        ∷ (no_err, 0)
        ∷ [])
      eio

-- Both afp_moveandrename calls and the afp_delete between them.
unfoldable pub move : (dirid_from dirid_to : ℕ) → (basename_from basename_to : CString) → Bool → M ℤ
move dirid_from dirid_to basename_from basename_to into = do
  rc ← call (
      if into
      then move_and_rename dirid_from dirid_to basename_from (some basename_to) basename_from
      else move_and_rename dirid_from dirid_to basename_from none basename_to)
  elim (rc ==ℤ object_exists) [
    | false ↦ pure (neg (rename_errno rc))
    | true ↦ do
      deleted ← call (delete dirid_to basename_to)
      again ← call (move_and_rename dirid_from dirid_to basename_from none basename_to)
      pure (neg (again_errno again))
  ]

unfoldable pub ml_rename : CString → CString → M ℤ
ml_rename path_from path_to = with_converted path_from λ converted_path_from.
    with_converted path_to λ converted_path_to. if_writable (do
      (dirid_from, basename_from) ← find_place converted_path_from
      (dirid_to, basename_to) ← find_place converted_path_to
      directory ← is_dir dirid_to converted_path_to
      move dirid_from dirid_to basename_from basename_to directory)
