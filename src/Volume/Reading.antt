-- ===== src/Volume/Reading.antt =====
-- Reading an open file: appledouble_read of lib/resource.c and ml_read of lib/midlevel.c.
use time_capsule_mount.Prelude.{
  ℕ, ◌+◌, ◌-◌, Bool, true, false, List, [], ◌∷◌, CString, ℤ, pos, neg, is_neg, ◌==ℤ◌, ◌==◌, ltb,
  if◌then◌else◌, length, take,
}
use Prim.Native.Nat.{min}
use time_capsule_mount.Afp.Codes.{
  no_err, access_denied, item_not_found, misc_err, object_not_found, param_err,
}
use time_capsule_mount.Afp.Errno.{enoent, eio, ebadf, eacces, efault, einval}
use time_capsule_mount.Afp.Bits.{
  finder_info_bit, meta_none, meta_resource, meta_appledouble, meta_finderinfo, meta_comment,
  meta_server_icon,
}
use time_capsule_mount.Afp.Types.{FileInfo}
use time_capsule_mount.Afp.Request.{get_comment}
use time_capsule_mount.Afp.Session.{M, get, pure, ◌>>=◌, exchange}
use time_capsule_mount.Volume.Control.{from_option, switch}
use time_capsule_mount.Volume.Names.{convert_path_to_afp, max_path}
use time_capsule_mount.Volume.Attr.{ll_get_directory_entry}
use time_capsule_mount.Volume.Data.{int32, patch, ll_read}

-- The return value, the caller's buffer, `*amount_read`, `*eof`, and the caller's afp_file_info.
pub record Reading : Type 0 where
  pub returns : ℤ
  pub buffer : List ℕ
  pub amount : ℕ
  pub at_eof : Bool
  pub file : FileInfo

abbrev pub nothing_read : List ℕ → FileInfo → ℤ → Reading
nothing_read buf fp ret = record {
  returns = ret;
  buffer = buf;
  amount = 0;
  at_eof = false;
  file = fp;
}

-- ll_read(volume, buf, size, offset, fp, eof)
unfoldable pub read_fork : List ℕ → (size offset : ℕ) → FileInfo → M Reading
read_fork buf size offset fp = do
  r ← ll_read size offset fp
  pure (record {
    returns = r.returns;
    buffer = patch buf 0 r.bytes;
    amount = 0;
    at_eof = r.at_eof;
    file = fp;
  })

abbrev pub comment_errno : ℤ → ℕ
comment_errno rc =
    switch rc
      ((access_denied, eacces)
        ∷ (misc_err, eio)
        ∷ (param_err, eio)
        ∷ (item_not_found, enoent)
        ∷ (object_not_found, enoent)
        ∷ [])
      enoent

-- The case AFP_META_COMMENT, from what the case before it may have read: fp->eof says that the comment
-- was read before.
unfoldable pub read_comment : Reading → M Reading
read_comment before = elim before.file.eof [
  | true ↦ pure (record before { returns = pos 1 })
  | false ↦ do
    r ← exchange (get_comment before.file.did before.file.basename)
    pure (
        if r.code ==ℤ no_err
        then record {
          returns = pos 1;
          buffer = patch before.buffer 0 r.payload;
          amount = length r.payload;
          at_eof = true;
          file = record before.file { eof = true };
        }
        else record before { returns = neg (comment_errno r.code) })
]

-- The case AFP_META_FINDERINFO, which has no break: a comment is asked for behind it.
unfoldable pub read_finderinfo : List ℕ → (size offset : ℕ) → FileInfo → M Reading
read_finderinfo buf size offset fp = elim (ltb 32 offset) [
  | true ↦ pure (nothing_read buf fp (neg efault))
  | false ↦ do
    (ret, fp') ← ll_get_directory_entry fp.basename fp.did finder_info_bit finder_info_bit fp
    elim (is_neg ret) [
      | true ↦ pure (nothing_read buf fp' ret)
      | false ↦
          let tocopy = min size (32 - offset) in
          read_comment (record {
            returns = ret;
            buffer = patch buf offset (take tocopy fp'.finderinfo);
            amount = tocopy;
            at_eof = offset + tocopy == 32;
            file = fp';
          })
    ]
]

-- The case AFP_META_SERVER_ICON
unfoldable pub read_servericon : List ℕ → (size offset : ℕ) → FileInfo → M Reading
read_servericon buf size offset fp = do
  s ← get
  let tocopy = min size (256 - offset)
  pure (
      if ltb 256 offset then nothing_read buf fp (neg efault) else record {
        returns = pos 1;
        buffer = patch buf offset (take tocopy s.icon);
        amount = tocopy;
        at_eof = true;
        file = record fp { eof = true };
      })

unfoldable pub appledouble_read : List ℕ → (size offset : ℕ) → FileInfo → M Reading
appledouble_read buf size offset fp =
    if fp.resource == meta_resource
    then read_fork buf size offset fp
    else (if fp.resource == meta_appledouble
        then pure (nothing_read buf fp (neg ebadf))
        else (if fp.resource == meta_finderinfo
            then read_finderinfo buf size offset fp
            else (if fp.resource == meta_comment
                then read_comment (nothing_read buf fp (pos 0))
                else (if fp.resource == meta_server_icon
                    then read_servericon buf size offset fp
                    else pure (nothing_read buf fp (pos 0))))))

-- What follows appledouble_read in ml_read: where that returns neither 1 nor an error, also for a
-- resource fork that it has read, the fork is read again.
unfoldable pub after_meta : (size offset : ℕ) → Reading → M Reading
after_meta size offset r =
    if is_neg r.returns
    then pure r
    else (if r.returns ==ℤ pos 1
        then pure (record r { returns = int32 r.amount })
        else read_fork r.buffer size offset r.file)

unfoldable pub ml_read : List ℕ → CString → (size offset : ℕ) → FileInfo → M Reading
ml_read buf path size offset fp = do
  s ← get
  from_option (convert_path_to_afp s.path_encoding path max_path)
      (pure (nothing_read buf fp (neg einval)))
      λ converted_path. elim (fp.resource == meta_none) [
        | true ↦ read_fork buf size offset fp
        | false ↦ do r ← appledouble_read buf size offset fp; after_meta size offset r
      ]
