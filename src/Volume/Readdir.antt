-- ===== src/Volume/Readdir.antt =====
-- Reading a directory with the files that are shown beside the real ones: add_fp, remove_fp and
-- appledouble_readdir of lib/resource.c, and ml_readdir of lib/midlevel.c.
use Prim.Native.Nat.{bit_and, bit_or}
use time_capsule_mount.Prelude.{
  ℕ, Bool, true, false, not, ◌||◌, none, some, Option, List, [], ◌∷◌, ◌++◌, CString, neg, is_set,
  ◌==◌, if◌then◌else◌,
}
use mathlib.Core.Option
use time_capsule_mount.Afp.Errno.{einval, enotdir}
use time_capsule_mount.Afp.Bits.{
  s_ifreg, meta_resource, meta_appledouble, meta_comment, meta_server_icon,
}
use time_capsule_mount.Afp.Types.{FileInfo}
use time_capsule_mount.Afp.Request.{open_dt}
use time_capsule_mount.Afp.Session.{M, get, pure, ◌>>=◌, ◌>>◌, exchange}
use time_capsule_mount.Volume.Control.{from_option}
use time_capsule_mount.Volume.Names.{convert_path_to_afp, max_path}
use time_capsule_mount.Volume.Meta.{translated, finderinfo_string, comment_string}
use time_capsule_mount.Volume.Attr.{set_permissions, store_refnum}
use time_capsule_mount.Volume.Stats.{get_comment_size, natural}
use time_capsule_mount.Volume.Listing.{Listing, ll_readdir}

-- What ml_readdir gives: a listing, or `freed` where it goes on in a list by a node that it has freed.
pub data Directory : Type 0 where
  directory : Listing → Directory
  freed : Directory

-- The node that add_fp puts before the others.
unfoldable pub add_fp : List FileInfo → FileInfo → (suffix : CString) → (size : ℕ) → List FileInfo
add_fp newchain fp suffix size =
    let sized : FileInfo = record fp { name = fp.name ++ suffix; resourcesize = size } in
    set_permissions (bit_or fp.unixprivs.permissions s_ifreg) sized ∷ newchain

-- ensure_dt_opened(volume)==0
unfoldable pub ensure_dt_opened : M Bool
ensure_dt_opened = do
  s ← get
  elim (s.dtrefnum == 0) [
    | false ↦ pure true
    | true ↦ do r ← exchange open_dt; store_refnum r; pure (not (is_set r.code))
  ]

-- The size of the comment of an entry, or 0 where the desktop database does not open.
unfoldable pub comment_size : FileInfo → M ℕ
comment_size fp = do
  ready ← ensure_dt_opened
  elim ready [
    | false ↦ pure 0
    | true ↦ do size ← get_comment_size fp.name fp.did; pure (natural size)
  ]

-- Whether remove_fp frees the entry: it is no plain file, or has no resource fork.
abbrev pub is_removed : FileInfo → Bool
is_removed fp = bit_and fp.unixprivs.permissions s_ifreg == 0 || fp.resourcesize == 0

-- The loop over the entries, and the list that it leaves. `none` is the use of a freed node: remove_fp
-- goes on from it, and so does the loop.
unfoldable pub add_meta_files :
    List FileInfo → (newchain : List FileInfo) → M (Option (List FileInfo))
add_meta_files [] newchain = pure (some newchain)
add_meta_files (fp ∷ fps) newchain = do
  size ← comment_size fp
  let described = add_fp newchain fp finderinfo_string 32
  elim (is_removed fp) [
    | true ↦ pure none
    | false ↦ do
      rest ←
          add_meta_files fps
            (if size == 0 then described else add_fp described fp comment_string 32)
      pure (Option.map (◌∷◌ fp) rest)
  ]

-- The case AFP_META_APPLEDOUBLE. The result of ll_readdir is not tested; an error leaves no entry, and
-- without one nothing is added.
unfoldable pub readdir_meta : (fuel : ℕ) → CString → M Directory
readdir_meta fuel newpath = do
  listing ← ll_readdir fuel newpath true
  elim listing [
    | Listing.unfinished ↦ pure (Directory.directory Listing.unfinished)
    | Listing.failed e ↦ pure (Directory.directory (Listing.listed []))
    | Listing.listed files ↦ do
      all ← add_meta_files files []
      pure (elim all [ none ↦ Directory.freed | some fs ↦ Directory.directory (Listing.listed fs) ])
  ]

-- `fuel` bounds the rounds of ll_readdir.
unfoldable pub ml_readdir : (fuel : ℕ) → CString → M Directory
ml_readdir fuel path = do
  s ← get
  from_option (convert_path_to_afp s.path_encoding path max_path)
      (pure (Directory.directory (Listing.failed (neg einval))))
      λ converted_path. do
        (kind, newpath) ← translated converted_path
        elim (kind == meta_appledouble) [
          | true ↦ readdir_meta fuel newpath
          | false ↦
              elim (kind == meta_resource || (kind == meta_server_icon || kind == meta_comment)) [
                | true ↦ pure (Directory.directory (Listing.failed (neg enotdir)))
                | false ↦ do
                  listing ← ll_readdir fuel converted_path false
                  pure (Directory.directory listing)
              ]
        ]
