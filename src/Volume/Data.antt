-- ===== src/Volume/Data.antt =====
-- Reading and writing the data of an open file: ll_read and ll_write of lib/lowlevel.c, the
-- operations of lib/resource.c on open files, and ml_write and ml_close of lib/midlevel.c.
use time_capsule_mount.Prelude.{
  ℕ, zero, suc, ◌+◌, ◌-◌, ◌%◌, ◌^◌, Bool, true, false, ◌&&◌, List, [], ◌∷◌, ◌++◌, CString, ℤ, pos,
  neg, is_neg, is_set, ◌==ℤ◌, ◌==◌, ltb, if◌then◌else◌, length, take, drop,
}
use Prim.Native.Nat.{min}
use time_capsule_mount.Afp.Codes.{
  no_err, access_denied, eof_err, lock_err, misc_err, object_not_found, param_err,
}
use time_capsule_mount.Afp.Errno.{eperm, enoent, eio, ebadf, eacces, ebusy, einval, efbig}
use time_capsule_mount.Afp.Bits.{
  finder_info_bit, meta_none, meta_resource, meta_appledouble, meta_finderinfo, meta_comment,
  meta_server_icon,
}
use time_capsule_mount.Afp.Types.{FileInfo}
use time_capsule_mount.Afp.Request.{
  Reply, write, write_ext, close_fork, set_file_dir_parms, add_comment, get_comment,
}
use time_capsule_mount.Afp.Request
use time_capsule_mount.Afp.Session.{M, get, pure, ◌>>=◌, ◌>>◌, exchange, get_time}
use time_capsule_mount.Volume.Control.{switch, call, with_converted, if_valid, if_writable}
use time_capsule_mount.Volume.Lock.{ll_handle_locking, ll_handle_unlocking}
use time_capsule_mount.Volume.Attr.{ll_get_directory_entry}
use time_capsule_mount.Volume.Forks.{remove_opened_fork}

-- The return value, what is in the caller's buffer, and `*eof`.
pub record ReadResult : Type 0 where
  pub returns : ℤ
  pub bytes : List ℕ
  pub at_eof : Bool

abbrev pub read_fails : ℕ → ReadResult
read_fails e = record { returns = neg e; bytes = []; at_eof = false }

-- A number that is stored in an int of 32 bits.
abbrev pub int32 : ℕ → ℤ
int32 n = let m = n % 2 ^ 32 in if ltb m (2 ^ 31) then pos m else neg (2 ^ 32 - m)

-- The payload of the reply is what arrives; the receiver puts no more of it into the buffer than
-- bufsize. The offset and the count of afp_read have 32 bits.
unfoldable pub ll_read : (size offset : ℕ) → FileInfo → M ReadResult
ll_read size offset fp = do
  l ← ll_handle_locking fp.forkid offset size
  elim (is_set l) [
    | true ↦ pure (read_fails ebusy)
    | false ↦ do
      s ← get
      r ← exchange (
          if ltb s.av_number 30
          then Request.read fp.forkid (offset % 2 ^ 32) (size % 2 ^ 32)
          else Request.read_ext fp.forkid offset size)
      u ← ll_handle_unlocking fp.forkid offset size
      let bytes = take (min s.rx_quantum size) r.payload
      let whole : ReadResult = record {
        returns = int32 (length bytes);
        bytes = bytes;
        at_eof = r.code ==ℤ eof_err;
      }
      pure (
          if is_set u
          then read_fails eio
          else switch r.code
              ((access_denied, read_fails eacces)
                ∷ (lock_err, read_fails ebusy)
                ∷ (misc_err, read_fails eio)
                ∷ (param_err, read_fails eio)
                ∷ [])
              whole)
  ]

-- The loop of ll_write: the result of each request is overwritten by `ret=0` before it is tested.
-- `fuel` bounds the rounds, and `o` is how far into the data it is. The offset of afp_write has 32 bits.
unfoldable pub write_chunks : (fuel : ℕ) → (forkid offset o : ℕ) → List ℕ → M ℕ
write_chunks zero forkid offset o bytes = pure o
write_chunks (suc n) forkid offset o [] = pure o
write_chunks (suc n) forkid offset o (x ∷ rest) = do
  s ← get
  let chunk = take s.tx_quantum (x ∷ rest)
  rc ← call (
      if ltb s.av_number 30
      then write forkid ((offset + o) % 2 ^ 32) (length chunk) chunk
      else write_ext forkid (offset + o) (length chunk) chunk)
  write_chunks n forkid offset (o + length chunk) (drop s.tx_quantum (x ∷ rest))

-- The return value, and `*totalwritten`. An error of the locks is stored in `ret`, where the label
-- `error` returns `err`, which is 0.
unfoldable pub ll_write : List ℕ → ℕ → FileInfo → M (ℤ × ℕ)
ll_write bytes offset fp = do
  l ← ll_handle_locking fp.forkid offset (length bytes)
  elim (is_set l) [
    | true ↦ pure (pos 0, 0)
    | false ↦ do
      total ← write_chunks (length bytes) fp.forkid offset 0 bytes
      u ← ll_handle_unlocking fp.forkid offset (length bytes)
      pure (pos 0, total)
  ]

-- memcpy(fp->finderinfo+offset, bytes, n)
abbrev pub patch : List ℕ → ℕ → List ℕ → List ℕ
patch old offset new = take offset old ++ (new ++ drop (offset + length new) old)

unfoldable pub write_finderinfo : List ℕ → ℕ → FileInfo → M (ℤ × ℕ)
write_finderinfo bytes offset fp = elim (ltb offset 32) [
  | false ↦ pure (neg einval, 0)
  | true ↦
      let towrite = min (length bytes) (32 - offset) in
      do
        s ← get
        (ret, fp2) ←
            ll_get_directory_entry fp.basename fp.did finder_info_bit finder_info_bit s.garbage
        elim (is_neg ret) [
          | true ↦ pure (ret, 0)
          | false ↦ do
            rc ← call (
                set_file_dir_parms fp.did fp.basename finder_info_bit
                  (record fp { finderinfo = patch fp.finderinfo offset (take towrite bytes) }))
            pure (
                switch rc
                  ((access_denied, (neg eacces, 0)) ∷ (object_not_found, (neg enoent, 0)) ∷ [])
                  (pos 1, towrite))
        ]
]

unfoldable pub appledouble_write : FileInfo → List ℕ → ℕ → M (ℤ × ℕ)
appledouble_write fp bytes offset =
    if fp.resource == meta_resource
    then ll_write bytes offset fp
    else (if fp.resource == meta_appledouble
        then pure (neg ebadf, 0)
        else (if fp.resource == meta_finderinfo
            then write_finderinfo bytes offset fp
            else (if fp.resource == meta_comment
                then (do
                  rc ← call (add_comment fp.did fp.basename bytes)
                  pure (
                      switch rc
                        ((access_denied, (neg eacces, 0))
                          ∷ (object_not_found, (neg enoent, 0))
                          ∷ (no_err, (pos 1, length bytes))
                          ∷ [])
                        (neg eio, 0)))
                else pure (if fp.resource == meta_server_icon then neg eperm else pos 0, 0))))

-- AFP_MAX_AFP2_FILESIZE
abbrev pub max_afp2_filesize : ℕ
max_afp2_filesize = 4294967296

-- What ml_write stores in the caller's file info is sent nowhere.
unfoldable pub ml_write : CString → List ℕ → ℕ → FileInfo → M ℤ
ml_write path bytes offset fp = do
  s ← get
  elim (ltb s.av_number 30 && ltb max_afp2_filesize (length bytes)) [
    | true ↦ pure (neg efbig)
    | false ↦ with_converted path λ converted_path. if_writable (do
      (ret, total) ← appledouble_write fp bytes offset
      elim (is_neg ret) [
        | true ↦ pure ret
        | false ↦ elim (ret ==ℤ pos 1) [
          | true ↦ pure (pos total)
          | false ↦ do
            now ← get_time
            (ret', total') ← ll_write bytes offset fp
            pure (if is_neg ret' then ret' else pos total')
        ]
      ])
  ]

-- It returns a positive errno for a plain file.
unfoldable pub ml_close : CString → (address : ℕ) → FileInfo → M ℤ
ml_close path address fp = with_converted path λ converted_path.
    if_valid converted_path (elim (fp.resource == meta_none) [
      | false ↦ elim (fp.resource == meta_resource) [
        | true ↦ do
          rc ← call (close_fork fp.forkid)
          pure (if rc ==ℤ no_err then pos 0 else neg eio)
        | false ↦ pure (
            if fp.resource == meta_appledouble
            then neg ebadf
            else (if fp.resource == meta_server_icon then pos 1 else pos 0))
      ]
      | true ↦ do
        rc ← call (close_fork fp.forkid)
        elim (rc ==ℤ no_err) [
          | true ↦ do remove_opened_fork address; pure (pos 0)
          | false ↦ pure (pos eio)
        ]
    ])
