-- ===== src/Volume/Open.antt =====
-- Opening a file: ll_open of lib/lowlevel.c, appledouble_open of lib/resource.c and ml_open of
-- lib/midlevel.c. The label `try_again` of ll_open is reached again each time that the file is not
-- found and can be created; `tries` bounds that, and `none` says that it was not enough.
use time_capsule_mount.Prelude.{
  ℕ, zero, suc, ◌-◌, Bool, true, false, ◌&&◌, ◌||◌, not, Option, none, some, [], ◌∷◌, CString, ℤ,
  pos, neg, is_neg, is_set, ◌==ℤ◌, ◌==◌, ltb, leb, if◌then◌else◌,
}
use Prim.Native.Nat.{bit_and, bit_or}
use mathlib.Core.Option
use time_capsule_mount.Afp.Codes.{
  no_err, access_denied, misc_err, object_not_found, param_err, object_type_err,
  too_many_files_open, object_locked,
}
use time_capsule_mount.Afp.Errno.{
  eperm, enoent, eio, eacces, efault, eisdir, einval, emfile, erofs, enametoolong, eoverflow,
}
use time_capsule_mount.Afp.Bits.{
  allow_read, allow_write, parent_dir_id_bit, node_id_bit, rsrc_fork_len_bit, data_fork_len_bit,
  meta_none, meta_resource, meta_appledouble, meta_comment, meta_server_icon,
}
use time_capsule_mount.Afp.Types.{FileInfo, OpenFlags, zero_info}
use time_capsule_mount.Afp.Request.{open_fork, open_dt}
use time_capsule_mount.Afp.Session.{
  Session, volume_is_readonly, M, get, pure, ◌>>=◌, ◌>>◌, exchange, fresh_address,
}
use time_capsule_mount.Did.Lookup.{get_dirid}
use time_capsule_mount.Volume.Control.{from_option, switch}
use time_capsule_mount.Volume.Names.{convert_path_to_afp, invalid_filename, max_path}
use time_capsule_mount.Volume.Forks.{add_opened_fork}
use time_capsule_mount.Volume.Lock.{ll_zero_file}
use time_capsule_mount.Volume.Meta.{extra_translate}
use time_capsule_mount.Volume.Attr.{found, store_refnum, ll_get_directory_entry}
use time_capsule_mount.Volume.Create.{ml_creat}
use time_capsule_mount.Volume.Data.{max_afp2_filesize}

-- afp_openfork(volume, resource, did, access, name, fp)
unfoldable pub openfork : (resource did access : ℕ) → CString → FileInfo → M (ℤ × FileInfo)
openfork resource did access name fp = do
  r ← exchange (open_fork resource did access name)
  pure (r.code, elim r.info [ none ↦ fp | some i ↦ record fp { forkid = i.forkid } ])

-- The access mode.
unfoldable pub open_access : OpenFlags → ℕ
open_access flags =
    bit_or allow_read
      (bit_or (if flags.o_wronly then allow_write else 0) (if flags.o_rdwr then 3 else 0))

-- (aflags&AFP_OPENFORK_ALLOWWRITE) & (volume_is_readonly(volume)), a bit operation on 2 and 1
unfoldable pub refuses_write : Session → ℕ → Bool
refuses_write s aflags =
    not (bit_and (bit_and aflags allow_write) (if volume_is_readonly s then 1 else 0) == 0)

abbrev pub Opened : Type 0
Opened = Option (ℤ × FileInfo)

abbrev pub open_errno : ℤ → ℕ
open_errno code =
    switch code
      ((access_denied, eacces)
        ∷ (object_not_found, enoent)
        ∷ (object_locked, erofs)
        ∷ (object_type_err, eisdir)
        ∷ (param_err, eacces)
        ∷ (too_many_files_open, emfile)
        ∷ (no_err, 0)
        ∷ [])
      efault

-- From the label `try_again` to the switch on the result.
unfoldable pub try_open : (tries : ℕ) → CString → OpenFlags → FileInfo → M Opened
try_open zero path flags fp = pure none
try_open (suc n) path flags fp = do
  (code, fp') ←
      openfork (if fp.resource == meta_none then 0 else 1) fp.did (open_access flags) fp.basename fp
  elim (code ==ℤ object_not_found && flags.o_creat) [
    | false ↦ pure (some (neg (open_errno code), fp'))
    | true ↦ do
      created ← ml_creat path 0x1a4
      elim (is_set created) [
        | true ↦ pure (some (neg enoent, fp'))
        | false ↦ try_open n path flags fp'
      ]
  ]

-- What follows the switch: the fork is noted, and the file truncated where that is asked for.
unfoldable pub opened_fork : (address : ℕ) → OpenFlags → Opened → M Opened
opened_fork address flags none = pure none
opened_fork address flags (some (code, fp)) = elim (is_set code) [
  | true ↦ pure (some (code, fp))
  | false ↦ do
    add_opened_fork address fp.forkid
    elim flags.o_trunc [
      | false ↦ pure (some (pos 0, fp))
      | true ↦ do
        ret ← ll_zero_file fp.forkid (not (fp.resource == meta_none))
        pure (some (neg ret, fp))
    ]
]

-- AFP 2.x cannot open a file of 4 GB.
unfoldable pub check_size : OpenFlags → FileInfo → M (ℤ × FileInfo)
check_size flags fp = do
  s ← get
  elim (flags.o_largefile && ltb s.av_number 30) [
    | false ↦ pure (pos 0, fp)
    | true ↦ do
      (rc, fp') ←
          ll_get_directory_entry fp.basename fp.did
            (bit_or parent_dir_id_bit (
              bit_or node_id_bit
                (if fp.resource == meta_none then data_fork_len_bit else rsrc_fork_len_bit)))
            0 fp
      let size = if fp'.resource == meta_none then fp'.size else fp'.resourcesize
      let e =
          switch rc ((access_denied, eacces) ∷ (object_not_found, enoent) ∷ (no_err, 0) ∷ []) eio
      pure (
        neg (if e == 0 then (if leb (max_afp2_filesize - 1) size then eoverflow else 0) else e),
        fp',
      )
  ]

unfoldable pub ll_open : (tries address : ℕ) → CString → OpenFlags → FileInfo → M Opened
ll_open tries address path flags fp = do
  s ← get
  elim (refuses_write s (open_access flags)) [
    | true ↦ pure (some (neg eperm, fp))
    | false ↦ do
      (code, fp') ← check_size flags fp
      elim (is_set code) [
        | true ↦ pure (some (code, fp'))
        | false ↦ do r ← try_open tries path flags fp'; opened_fork address flags r
      ]
  ]

-- get_dirid(volume, path, fp->basename, &fp->did): `none` where it returns -1
unfoldable pub locate : CString → FileInfo → M (Option FileInfo)
locate path fp = do
  l ← get_dirid path
  pure (Option.map (λ (did, basename). record fp { basename = basename; did = did }) (found l))

-- The desktop database is opened before a comment is.
unfoldable pub open_comment : FileInfo → M Opened
open_comment fp = do
  s ← get
  elim (s.dtrefnum == 0) [
    | false ↦ pure (some (pos 1, fp))
    | true ↦ do
      r ← exchange open_dt
      store_refnum r
      pure (some (if r.code ==ℤ param_err || r.code ==ℤ misc_err then neg eio else pos 1, fp))
  ]

-- It returns 1 where the file is no plain one and is open.
unfoldable pub appledouble_open : (tries address : ℕ) → CString → OpenFlags → FileInfo → M Opened
appledouble_open tries address path flags fp = do
  s ← get
  let (kind, newpath) = extra_translate s.extra_flags.show_appledouble path
  let fp' : FileInfo = record fp { resource = kind }
  elim (kind == meta_none || (kind == meta_appledouble || kind == meta_server_icon)) [
    | true ↦ pure (
        some (
          if kind == meta_none
              then pos 0
              else (if kind == meta_appledouble then neg eisdir else pos 1),
          fp',
        ))
    | false ↦ do
      l ← locate newpath fp'
      from_option l (pure (some (neg enoent, fp'))) λ at.
          if kind == meta_resource
          then (do
            r ← ll_open tries address newpath flags at
            pure (Option.map (λ (code, o). (if is_neg code then code else pos 1, o)) r))
          else (if kind == meta_comment then open_comment at else pure (some (pos 1, at)))
  ]

abbrev pub asks_for_write : OpenFlags → Bool
asks_for_write f = f.o_wronly || f.o_rdwr || f.o_trunc || f.o_append || f.o_creat

-- The end of ml_open, behind appledouble_open.
unfoldable pub open_plain : (tries address : ℕ) → CString → OpenFlags → Opened → M Opened
open_plain tries address converted_path flags none = pure none
open_plain tries address converted_path flags (some (code, fp)) =
    if is_neg code
    then pure (some (code, fp))
    else (if code ==ℤ pos 1 then pure (some (pos 0, fp)) else (do
      l ← locate converted_path fp
      from_option l (pure (some (neg enoent, fp))) (ll_open tries address converted_path flags)))

-- Behind the tests of ml_open.
unfoldable pub open_tail :
    (tries : ℕ) → (path converted_path : CString) → OpenFlags → M (Opened × ℕ)
open_tail tries path converted_path flags = do
  address ← fresh_address
  r ← appledouble_open tries address path flags zero_info
  o ← open_plain tries address converted_path flags r
  pure (o, address)

-- The return value, and `*newfp`.
unfoldable pub ml_open : (tries : ℕ) → CString → OpenFlags → M (Opened × ℕ)
ml_open tries path flags = do
  s ← get
  from_option (convert_path_to_afp s.path_encoding path max_path)
      (pure (some (neg einval, zero_info), 0))
      λ converted_path.
        if invalid_filename s.av_number s.path_encoding converted_path
        then pure (some (neg enametoolong, zero_info), 0)
        else (if volume_is_readonly s && asks_for_write flags
            then pure (some (neg eacces, zero_info), 0)
            else open_tail tries path converted_path flags)
