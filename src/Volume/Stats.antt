-- ===== src/Volume/Stats.antt =====
-- What the client tells of files: ml_getattr of lib/midlevel.c, and
-- appledouble_getattr with get_comment_size of lib/resource.c.
use time_capsule_mount.Prelude.{
  ℕ, ◌+◌, Bool, true, false, not, ◌||◌, [], ◌∷◌, CString, ℤ, pos, neg, is_neg, ◌==ℤ◌, ◌==◌, length,
  if◌then◌else◌,
}
use Prim.Native.Nat.{bit_or}
use time_capsule_mount.Afp.Codes.{
  no_err, access_denied, item_not_found, misc_err, object_not_found, param_err,
}
use time_capsule_mount.Afp.Errno.{enoent, eio, eacces, einval}
use time_capsule_mount.Afp.Bits.{
  s_ifdir, s_ifreg, meta_none, meta_resource, meta_appledouble, meta_finderinfo, meta_server_icon,
}
use time_capsule_mount.Afp.Types.{Stat, zero_stat}
use time_capsule_mount.Afp.Request.{get_comment, open_dt}
use time_capsule_mount.Afp.Session.{M, get, pure, ◌>>=◌, ◌>>◌, exchange}
use time_capsule_mount.Did.Lookup.{get_dirid}
use time_capsule_mount.Volume.Control.{from_option, switch}
use time_capsule_mount.Volume.Names.{convert_path_to_afp, max_path}
use time_capsule_mount.Volume.Meta.{translated}
use time_capsule_mount.Volume.Attr.{found, store_refnum, ll_getattr}

-- The desktop database is opened at most once.
unfoldable pub open_desktop : M Bool
open_desktop = do
  s ← get
  elim (s.dtrefnum == 0) [
    | false ↦ pure true
    | true ↦ do r ← exchange open_dt; store_refnum r; pure (not (is_neg r.code))
  ]

-- The size of the comment, or a negative number. Any other result is returned as it is.
unfoldable pub get_comment_size : CString → ℕ → M ℤ
get_comment_size basename did = do
  opened ← open_desktop
  elim opened [
    | false ↦ pure (neg eio)
    | true ↦ do
      r ← exchange (get_comment did basename)
      pure (
          switch r.code
            ((access_denied, neg eacces)
              ∷ (misc_err, neg eio)
              ∷ (param_err, neg eio)
              ∷ (item_not_found, neg enoent)
              ∷ (object_not_found, neg enoent)
              ∷ (no_err, pos (length r.payload))
              ∷ [])
            r.code)
  ]

abbrev pub natural : ℤ → ℕ
natural (pos n) = n
natural z = 0

-- The case AFP_META_COMMENT of appledouble_getattr.
unfoldable pub getattr_comment : CString → M (ℤ × Stat)
getattr_comment newpath = do
  (ret, st) ← ll_getattr newpath false
  elim (is_neg ret) [
    | true ↦ pure (ret, st)
    | false ↦ do
      l ← get_dirid newpath
      from_option (found l) (pure (neg 1, st)) λ (did, basename). do
        size ← get_comment_size basename did
        pure (
            if is_neg size
            then (size, st)
            else (pos 1, record st { st_mode = bit_or st.st_mode s_ifreg; st_size = natural size }))
  ]

unfoldable pub appledouble_getattr : CString → M (ℤ × Stat)
appledouble_getattr path = do
  (kind, newpath) ← translated path
  elim (kind == meta_none) [
    | true ↦ pure (pos 0, zero_stat)
    | false ↦ elim (kind == meta_appledouble || kind == meta_server_icon) [
      | true ↦ pure (
        pos 1,
        (if kind == meta_appledouble
            then record zero_stat { st_mode = 0x1c0 + s_ifdir }
            else record zero_stat { st_mode = s_ifreg + 0x124; st_size = 256 }),
      )
      | false ↦ elim (kind == meta_resource || kind == meta_finderinfo) [
        | false ↦ getattr_comment newpath
        | true ↦ do
          (ret, st) ← ll_getattr newpath (kind == meta_resource)
          pure (
            pos 1,
            (if kind == meta_resource
                then st
                else record st { st_mode = bit_or st.st_mode s_ifreg; st_size = 32 }),
          )
      ]
    ]
  ]

-- ll_getattr is given the path as it came, and not the converted one.
unfoldable pub ml_getattr : CString → M (ℤ × Stat)
ml_getattr path = do
  s ← get
  from_option (convert_path_to_afp s.path_encoding path max_path) (pure (neg einval, zero_stat))
      λ converted_path. do
        (ret, st) ← appledouble_getattr converted_path
        elim (ret ==ℤ pos 0) [
          | true ↦ ll_getattr path false
          | false ↦ pure (if is_neg ret then ret else pos 0, st)
        ]
