-- ===== src/Volume/Create.antt =====
-- New files and directories: ml_creat and ml_mkdir of lib/midlevel.c.
use time_capsule_mount.Prelude.{ℕ, true, false, [], ◌∷◌, CString, ℤ, pos, neg, is_set, ◌==◌}
use time_capsule_mount.Afp.Codes.{
  no_err, access_denied, disk_full, file_busy, flat_vol, misc_err, object_exists, object_not_found,
  param_err, vol_locked, minus_one,
}
use time_capsule_mount.Afp.Errno.{eperm, enoent, eio, eacces, efault, ebusy, eexist, enospc}
use time_capsule_mount.Afp.Bits.{soft_create}
use time_capsule_mount.Afp.Request.{create_file, create_dir}
use time_capsule_mount.Afp.Session.{M, get, pure, ◌>>=◌}
use time_capsule_mount.Volume.Control.{
  switch, call, with_converted, if_valid, if_writable, unless_meta,
}
use time_capsule_mount.Volume.Meta.{appledouble_creat, refuse}
use time_capsule_mount.Volume.Attr.{
  get_unixprivs, set_unixprivs, find_place, set_permissions, clear_ua_permissions,
}

-- The errno for the result of afp_createfile.
unfoldable pub creat_errno : ℤ → ℕ
creat_errno rc =
    switch rc
      ((access_denied, eacces)
        ∷ (disk_full, enospc)
        ∷ (object_exists, eexist)
        ∷ (object_not_found, enoent)
        ∷ (file_busy, ebusy)
        ∷ (vol_locked, ebusy)
        ∷ (no_err, 0)
        ∷ [])
      eio

-- The end of ml_creat: the new file gets its mode. Where its privileges cannot be read, the code
-- returns the result of afp_createfile, which is 0.
unfoldable pub give_mode : ℕ → CString → ℕ → M ℤ
give_mode dirid basename mode = do
  s ← get
  elim s.extra_flags.supports_unix [
    | false ↦ pure (pos 0)
    | true ↦ do
      (ret, fp) ← get_unixprivs dirid basename s.garbage
      elim (is_set ret) [
        | true ↦ pure (pos 0)
        | false ↦ elim (fp.unixprivs.permissions == mode) [
          | true ↦ pure (pos 0)
          | false ↦
              let new = set_permissions mode (clear_ua_permissions fp) in
              do
                rc ← set_unixprivs dirid basename (record new { isdir = false })
                pure (
                    neg (
                      switch rc
                        ((access_denied, eperm) ∷ (object_not_found, enoent) ∷ (no_err, 0) ∷ [])
                        eio))
        ]
      ]
  ]

unfoldable pub ml_creat : CString → ℕ → M ℤ
ml_creat path mode = with_converted path λ converted_path. if_writable (
    unless_meta (appledouble_creat path) (
      if_valid converted_path (do
        (dirid, basename) ← find_place converted_path
        rc ← call (create_file soft_create dirid basename)
        elim (creat_errno rc == 0) [
          | false ↦ pure (neg (creat_errno rc))
          | true ↦ give_mode dirid basename mode
        ])))

unfoldable pub ml_mkdir : CString → M ℤ
ml_mkdir path = with_converted path λ converted_path. if_valid path (
    if_writable (
      unless_meta (refuse path) (do
        (dirid, basename) ← find_place converted_path
        rc ← call (create_dir dirid basename)
        pure (
            neg (
              switch rc
                ((access_denied, eacces)
                  ∷ (disk_full, enospc)
                  ∷ (object_not_found, enoent)
                  ∷ (object_exists, eexist)
                  ∷ (vol_locked, ebusy)
                  ∷ (flat_vol, efault)
                  ∷ (misc_err, efault)
                  ∷ (param_err, efault)
                  ∷ (minus_one, efault)
                  ∷ [])
                0)))))
