-- ===== src/Volume/Owner.antt =====
-- Modes, owners and times: ml_chmod, ml_chown and ml_utime of lib/midlevel.c.
use time_capsule_mount.Prelude.{
  ℕ, true, false, not, ◌&&◌, [], ◌∷◌, CString, ℤ, pos, neg, is_set, ◌==ℤ◌, ◌==◌, if◌then◌else◌,
}
use time_capsule_mount.Afp.Codes.{no_err, access_denied, object_not_found}
use time_capsule_mount.Afp.Errno.{eperm, enoent, eio, eacces, enosys}
use time_capsule_mount.Afp.Bits.{s_ifdir, mod_date_bit}
use time_capsule_mount.Afp.Types.{FileInfo, zero_info}
use time_capsule_mount.Afp.Request.{set_dir_parms, set_file_parms}
use time_capsule_mount.Afp.Session.{Session, M, get, pure, ◌>>=◌}
use time_capsule_mount.Did.Lookup.{is_dir}
use time_capsule_mount.Volume.Control.{
  switch, call, with_converted, if_valid, if_writable, unless_meta,
}
use time_capsule_mount.Volume.Users.{translate_uidgid_to_client}
use time_capsule_mount.Volume.Meta.{refuse}
use time_capsule_mount.Volume.Attr.{
  and_not, ll_getattr, get_unixprivs, set_unixprivs, find_place, set_permissions,
}

-- What ml_chmod and ml_chown do where the volume has no Unix privileges.
unfoldable pub without_unix : CString → M ℤ
without_unix path = do
  s ← get
  elim s.extra_flags.ignore_unixprivs [
    | true ↦ do (ret, stbuf) ← ll_getattr path false; pure ret
    | false ↦ pure (neg enosys)
  ]

-- The guess of ml_chmod whether the user may do that: the owner, or one of the group.
unfoldable pub may_chmod : Session → FileInfo → ℤ
unfolding translate_uidgid_to_client
may_chmod s fp =
    let (rc, uid, gid) = translate_uidgid_to_client s fp.unixprivs.uid fp.unixprivs.gid in
    if is_set rc
    then neg eio
    else (if not (gid == s.getgid) && not (uid == s.geteuid) then neg eperm else pos 0)

-- The end of ml_chmod, from the privileges on: only an unsupported mode is reported.
unfoldable pub change_mode : ℕ → CString → ℕ → FileInfo → M ℤ
change_mode dirid basename mode fp = do
  s ← get
  let mode' = and_not mode s_ifdir
  elim (and_not fp.unixprivs.permissions s_ifdir == mode') [
    | true ↦ pure (pos 0)
    | false ↦ elim (is_set (may_chmod s fp)) [
      | true ↦ pure (may_chmod s fp)
      | false ↦ do
        rc ← set_unixprivs dirid basename (set_permissions mode' fp)
        pure (if rc ==ℤ neg enosys then neg enosys else pos 0)
    ]
  ]

unfoldable pub ml_chmod : CString → ℕ → M ℤ
ml_chmod path mode = if_valid path (
    if_writable (do
      s ← get
      elim s.extra_flags.supports_unix [
        | false ↦ without_unix path
        | true ↦ with_converted path λ converted_path. unless_meta (refuse path) (do
          (dirid, basename) ← find_place converted_path
          t ← get
          (rc, fp) ← get_unixprivs dirid basename t.garbage
          elim (is_set rc) [ true ↦ pure rc | false ↦ change_mode dirid basename mode fp ])
      ]))

-- The new owner is given nowhere: the privileges that were read are written back.
unfoldable pub ml_chown : CString → M ℤ
ml_chown path = with_converted path λ converted_path. if_valid converted_path (
    if_writable (
      unless_meta (refuse path) (do
        s ← get
        elim s.extra_flags.supports_unix [
          | false ↦ without_unix path
          | true ↦ do
            (dirid, basename) ← find_place converted_path
            t ← get
            (rc, fp) ← get_unixprivs dirid basename t.garbage
            elim (is_set rc) [
              | true ↦ pure rc
              | false ↦ do
                rc' ← set_unixprivs dirid basename fp
                pure (
                    switch rc'
                      ((neg enosys, neg enosys)
                        ∷ (no_err, pos 0)
                        ∷ (access_denied, neg eacces)
                        ∷ (object_not_found, neg enoent)
                        ∷ [])
                      (pos 0))
            ]
        ])))

unfoldable pub ml_utime : CString → (modtime : ℕ) → M ℤ
ml_utime path modtime = if_writable (
    if_valid path (
      with_converted path λ converted_path. unless_meta (refuse path) (do
        (dirid, basename) ← find_place converted_path
        directory ← is_dir dirid basename
        let fp : FileInfo = record zero_info { modification_date = modtime }
        rc ← call (
            if directory
            then set_dir_parms dirid basename mod_date_bit fp
            else set_file_parms dirid basename mod_date_bit fp)
        pure (
            switch rc
              ((no_err, pos 0) ∷ (access_denied, neg eacces) ∷ (object_not_found, neg enoent) ∷ [])
              (pos 0)))))
