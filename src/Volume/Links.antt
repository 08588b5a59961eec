-- ===== src/Volume/Links.antt =====
-- Reading a link: ml_readlink of lib/midlevel.c.
use time_capsule_mount.Prelude.{
  ℕ, ◌+◌, true, false, Option, none, some, [], ◌∷◌, CString, ℤ, pos, neg, ◌==ℤ◌, ◌==◌, ltb,
  if◌then◌else◌,
}
use time_capsule_mount.Afp.Codes.{
  no_err, access_denied, bitmap_err, deny_conflict, lock_err, misc_err, object_locked,
  object_not_found, object_type_err, param_err, too_many_files_open, vol_locked,
}
use time_capsule_mount.Afp.Errno.{enoent, eio, eacces, ebusy, efault, eisdir, einval, emfile, erofs}
use time_capsule_mount.Afp.Bits.{allow_read, allow_write}
use time_capsule_mount.Afp.Types.{FileInfo}
use time_capsule_mount.Afp.Request.{Request, Reply, close_fork}
use time_capsule_mount.Afp.Session.{M, get, pure, ◌>>=◌, ◌>>◌, exchange, fresh_address}
use time_capsule_mount.Reply.Pascal.{until_nul}
use time_capsule_mount.Volume.Control.{from_option, switch, call}
use time_capsule_mount.Volume.Names.{convert_path_to_afp, max_path}
use time_capsule_mount.Volume.Composing.{Unicode, convert_path_to_unix}
use time_capsule_mount.Volume.Forks.{add_opened_fork, remove_opened_fork}
use time_capsule_mount.Volume.Attr.{find_place}
use time_capsule_mount.Volume.Open.{openfork}

-- The switch on what afp_openfork returns.
abbrev pub link_open_errno : ℤ → ℕ
link_open_errno rc =
    switch rc
      ((access_denied, eacces)
        ∷ (object_not_found, enoent)
        ∷ (object_locked, erofs)
        ∷ (object_type_err, eisdir)
        ∷ (param_err, eacces)
        ∷ (too_many_files_open, emfile)
        ∷ (vol_locked, 0)
        ∷ (deny_conflict, 0)
        ∷ (misc_err, 0)
        ∷ (bitmap_err, 0)
        ∷ (no_err, 0)
        ∷ [])
      efault

-- The switch on what the read returns: any other result goes on.
abbrev pub link_read_errno : ℤ → ℕ
link_read_errno rc =
    switch rc
      ((access_denied, eacces) ∷ (lock_err, ebusy) ∷ (misc_err, eio) ∷ (param_err, eio) ∷ []) 0

abbrev pub or_empty : Option CString → CString
or_empty none = []
or_empty (some s) = s

-- From the switch on the result of the read on: the return value, and the caller's buffer. An error jumps
-- over the closing of the fork and over remove_opened_fork.
unfoldable pub finish_link : Unicode → (address : ℕ) → FileInfo → Reply → M (ℤ × CString)
finish_link u address fp r = elim (link_read_errno r.code == 0) [
  | false ↦ pure (neg (link_read_errno r.code), [])
  | true ↦ do
    closed ← call (close_fork fp.forkid)
    elim (closed ==ℤ no_err) [
      | false ↦ pure (neg eio, [])
      | true ↦ do
        remove_opened_fork address
        s ← get
        pure (
          pos 0,
          or_empty (convert_path_to_unix u s.path_encoding (until_nul r.payload) max_path),
        )
    ]
]

-- ml_readlink behind the opening of the fork. link_path has room for AFP_MAX_PATH bytes, and the read is
-- told that it has `size`.
unfoldable pub read_link : Unicode → (address : ℕ) → FileInfo → (size : ℕ) → M (ℤ × CString)
read_link u address fp size = do
  add_opened_fork address fp.forkid
  s ← get
  r ← exchange (
      if ltb s.av_number 30
      then Request.read fp.forkid 0 size
      else Request.read_ext fp.forkid 0 size)
  finish_link u address fp r

-- The fork is opened for reading and for writing.
unfoldable pub ml_readlink : Unicode → CString → (size : ℕ) → M (ℤ × CString)
ml_readlink u path size = do
  s ← get
  from_option (convert_path_to_afp s.path_encoding path max_path) (pure (neg einval, []))
      λ converted_path. do
        (dirid, basename) ← find_place converted_path
        address ← fresh_address
        (rc, fp) ← openfork 0 dirid (allow_read + allow_write) basename s.garbage
        elim (link_open_errno rc == 0) [
          | false ↦ pure (neg (link_open_errno rc), [])
          | true ↦ read_link u address fp size
        ]
