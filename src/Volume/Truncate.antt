-- ===== src/Volume/Truncate.antt =====
-- ml_truncate and ml_symlink of lib/midlevel.c, and appledouble_truncate of lib/resource.c.
use time_capsule_mount.Prelude.{
  ℕ, ◌+◌, true, false, ◌||◌, ◌++◌, codes, replicate, none, some, List, [], ◌∷◌, CString, ℤ, pos,
  neg, is_set, ◌==ℤ◌, ◌==◌, ltb, length, if◌then◌else◌,
}
use time_capsule_mount.Afp.Codes.{no_err, access_denied, bitmap_err, object_not_found}
use time_capsule_mount.Afp.Errno.{eperm, enoent, eio, eisdir, enosys}
use time_capsule_mount.Afp.Bits.{
  allow_read, allow_write, hard_create, finder_info_bit, meta_resource, meta_appledouble,
  meta_finderinfo, meta_comment, meta_server_icon,
}
use time_capsule_mount.Afp.Types.{OpenFlags}
use time_capsule_mount.Afp.Request.{close_fork, create_file, write_ext, set_file_dir_parms}
use time_capsule_mount.Afp.Session.{M, get, pure, ◌>>=◌, ◌>>◌, fresh_address}
use time_capsule_mount.Volume.Control.{
  switch, call, with_converted, if_valid, if_writable, unless_meta,
}
use time_capsule_mount.Volume.Forks.{add_opened_fork, remove_opened_fork}
use time_capsule_mount.Volume.Lock.{ll_zero_file}
use time_capsule_mount.Volume.Meta.{translated, refuse}
use time_capsule_mount.Volume.Attr.{find_place}
use time_capsule_mount.Volume.Create.{creat_errno}
use time_capsule_mount.Volume.Open.{openfork, Opened, ml_open}

-- The fork is opened with O_WRONLY, which is 1, as its access mode; `ll_zero_file` never returns a
-- negative number.
unfoldable pub truncate_resource : CString → M ℤ
truncate_resource newpath = do
  (dirid, basename) ← find_place newpath
  address ← fresh_address
  s ← get
  (code, fp) ← openfork 1 dirid 1 basename s.garbage
  ret ← ll_zero_file fp.forkid false
  closed ← call (close_fork fp.forkid)
  remove_opened_fork address
  pure (pos 1)

unfoldable pub appledouble_truncate : CString → M ℤ
appledouble_truncate path = do
  (resource, newpath) ← translated path
  elim (resource == meta_resource) [
    | true ↦ truncate_resource newpath
    | false ↦ pure (
        if resource == meta_appledouble
        then neg eisdir
        else (if resource == meta_finderinfo || resource == meta_comment
            then pos 1
            else (if resource == meta_server_icon then neg eperm else pos 0)))
  ]

abbrev write_only : OpenFlags
write_only = record {
  o_wronly = true;
  o_rdwr = false;
  o_creat = false;
  o_trunc = false;
  o_append = false;
  o_largefile = false;
}

-- The end of ml_truncate: a failure to open the file is reported as 0, and one to truncate it leaves
-- the fork open.
unfoldable pub zero_opened : Opened × ℕ → M ℤ
zero_opened (none, address) = pure (pos 0)
zero_opened (some (code, fp), address) = elim (is_set code) [
  | true ↦ pure (pos 0)
  | false ↦ do
    ret ← ll_zero_file fp.forkid false
    elim (ret == 0) [
      | false ↦ pure (neg ret)
      | true ↦ do closed ← call (close_fork fp.forkid); remove_opened_fork address; pure (pos 0)
    ]
]

-- Without O_CREAT one try opens the file or fails.
unfoldable pub ml_truncate : CString → M ℤ
ml_truncate path = with_converted path λ converted_path. if_valid converted_path (
    if_writable (
      unless_meta (appledouble_truncate path)
        (do opened ← ml_open 1 path write_only; zero_opened opened)))

abbrev pub slnkrhap : List ℕ
slnkrhap = codes "slnkrhap" ++ replicate 24 0

abbrev pub symlink_errno : ℤ → ℕ
symlink_errno rc =
    switch rc
      ((access_denied, eperm)
        ∷ (bitmap_err, enosys)
        ∷ (object_not_found, enoent)
        ∷ (no_err, 0)
        ∷ [])
      eio

-- ml_symlink from the opening of the fork on. The result of afp_openfork is not tested: the switch is
-- on `ret`, which is 0.
unfoldable pub write_link : ℕ → CString → CString → M ℤ
write_link dirid2 basename2 target = do
  s ← get
  address ← fresh_address
  (code, fp) ← openfork 0 dirid2 (allow_read + allow_write) basename2 s.garbage
  add_opened_fork address fp.forkid
  written ← call (write_ext fp.forkid 0 (length target) target)
  closed ← call (close_fork fp.forkid)
  elim (closed ==ℤ no_err) [
    | false ↦ pure (neg eio)
    | true ↦ do
      remove_opened_fork address
      rc ← call (
          set_file_dir_parms dirid2 basename2 finder_info_bit (record fp { finderinfo = slnkrhap }))
      pure (neg (symlink_errno rc))
  ]

unfoldable pub ml_symlink : CString → CString → M ℤ
ml_symlink path1 path2 = do
  s ← get
  elim (ltb s.av_number 30) [
    | true ↦ pure (neg enosys)
    | false ↦ with_converted path1 λ converted_path1. with_converted path2 λ converted_path2.
        if_writable (
          unless_meta (refuse path1) (do
            (dirid2, basename2) ← find_place converted_path2
            rc ← call (create_file hard_create dirid2 basename2)
            elim (creat_errno rc == 0) [
              | false ↦ pure (neg (creat_errno rc))
              | true ↦ write_link dirid2 basename2 converted_path1
            ]))
  ]
