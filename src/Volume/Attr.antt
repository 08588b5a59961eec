-- ===== src/Volume/Attr.antt =====
-- Reading and setting the attributes of a file: lib/lowlevel.c and lib/midlevel.c.
use time_capsule_mount.Prelude.{
  ℕ, ◌+◌, ◌*◌, ◌/◌, Bool, true, false, not, ◌&&◌, Option, none, some, [], ◌∷◌, CString, str_eq, ℤ,
  pos, neg, is_set, ◌==◌, ltb, leb, if◌then◌else◌,
}
use Prim.Native.Nat.{bit_and, bit_xor}
use time_capsule_mount.Afp.Codes.{no_err, access_denied, bitmap_err, object_not_found}
use time_capsule_mount.Afp.Errno.{eperm, enoent, eio, eacces, efault, enosys, enametoolong}
use time_capsule_mount.Afp.Bits.{
  attribute_bit, parent_dir_id_bit, create_date_bit, mod_date_bit, node_id_bit, offspring_count_bit,
  finder_info_bit, owner_id_bit, group_id_bit, unix_privs_bit, rsrc_fork_len_bit, data_fork_len_bit,
  ext_rsrc_fork_len_bit, ext_data_fork_len_bit, s_ifdir, s_ifreg,
}
use time_capsule_mount.Afp.Types.{FileInfo, ExtraFlags, Stat, zero_stat}
use time_capsule_mount.Afp.Request.{Reply, set_dir_parms, set_file_dir_parms}
use time_capsule_mount.Afp.Session.{Session, M, get, pure, ◌>>=◌, ◌>>◌}
use time_capsule_mount.Did.Lookup.{
  slash, getfiledirparms, Located, located, no_slash, relative, get_dirid,
}
use time_capsule_mount.Volume.Control.{from_option, switch, call}
use time_capsule_mount.Volume.Names.{invalid_filename}
use time_capsule_mount.Volume.Lock.{is_netatalk}
use time_capsule_mount.Volume.Users.{translate_uidgid_to_client}

-- AFP_CHMOD_ALLOWED_BITS_22, TOCHECK_BITS
abbrev pub chmod_allowed_bits : ℕ
chmod_allowed_bits = 0x81b6

abbrev pub tocheck_bits : ℕ
tocheck_bits = 0x1ff

-- a & ~b
abbrev pub and_not : ℕ → ℕ → ℕ
and_not a b = bit_xor a (bit_and a b)

unfoldable pub ll_get_directory_entry :
    CString → (did file_bitmap dir_bitmap : ℕ) → FileInfo → M (ℤ × FileInfo)
ll_get_directory_entry name did file_bitmap dir_bitmap p = do
  (ret, p') ← getfiledirparms did file_bitmap dir_bitmap name p
  pure (ret, record p' { basename = p.basename })

unfoldable pub get_unixprivs : ℕ → CString → FileInfo → M (ℤ × FileInfo)
get_unixprivs dirid path fp = do
  (rc, fp') ← ll_get_directory_entry path dirid unix_privs_bit unix_privs_bit fp
  pure (
    neg (switch rc ((access_denied, eacces) ∷ (object_not_found, enoent) ∷ (no_err, 0) ∷ []) eio),
    fp',
  )

abbrev pub set_extra_flags : ExtraFlags → M (Unit {0})
set_extra_flags f s = (tt, record s { extra_flags = f })

abbrev pub set_permissions : ℕ → FileInfo → FileInfo
set_permissions p fp =
    let u = fp.unixprivs in record fp { unixprivs = record u { permissions = p } }

abbrev pub clear_ua_permissions : FileInfo → FileInfo
clear_ua_permissions fp =
    let u = fp.unixprivs in record fp { unixprivs = record u { ua_permissions = 0 } }

-- Bits that a netatalk of version 2.0.3 or earlier does not keep.
abbrev pub has_extra_bits : FileInfo → Bool
has_extra_bits fp = not (and_not fp.unixprivs.permissions chmod_allowed_bits == 0)

-- The file info that is sent.
unfoldable pub to_send : Session → FileInfo → FileInfo
to_send s fp =
    let f = s.extra_flags in
    if not fp.isdir
      && (has_extra_bits fp && (is_netatalk s.server_type && (f.chmod_known && f.chmod_broken)))
    then set_permissions (bit_and fp.unixprivs.permissions chmod_allowed_bits) fp
    else fp

-- The end of set_unixprivs: whether a netatalk keeps the extra bits is found out once.
unfoldable pub check_chmod : ℕ → CString → FileInfo → ℤ → M ℤ
check_chmod dirid basename fp result = do
  s ← get
  elim (has_extra_bits fp && (not s.extra_flags.chmod_known && is_netatalk s.server_type)) [
    | false ↦ pure result
    | true ↦ do
      (rc2, fp2) ← get_unixprivs dirid basename s.garbage
      elim (is_set rc2) [
        | true ↦ pure rc2
        | false ↦
            let f = s.extra_flags in
            elim (bit_and fp2.unixprivs.permissions tocheck_bits
              == bit_and fp.unixprivs.permissions tocheck_bits) [
                | true ↦ do
                  set_extra_flags (record f { chmod_known = true; chmod_broken = false })
                  pure result
                | false ↦ do
                  set_extra_flags (record f { chmod_known = true; chmod_broken = true })
                  pure (neg efault)
              ]
      ]
  ]

unfoldable pub set_unixprivs : ℕ → CString → FileInfo → M ℤ
set_unixprivs dirid basename fp = do
  s ← get
  elim s.extra_flags.supports_unix [
    | false ↦ pure (pos 0)
    | true ↦
        let fp' = to_send s (clear_ua_permissions fp) in
        do
          rc ← call (
              if fp.isdir
              then set_dir_parms dirid basename unix_privs_bit fp'
              else set_file_dir_parms dirid basename unix_privs_bit fp')
          check_chmod dirid basename fp' (
              neg (
                switch rc
                  ((access_denied, eperm)
                    ∷ (bitmap_err, enosys)
                    ∷ (object_not_found, enoent)
                    ∷ (no_err, 0)
                    ∷ [])
                  eio))
  ]

-- *dirid and basename after get_dirid: an error leaves what the variables held.
abbrev pub place : FileInfo → Located → ℕ × CString
place garbage (located basename dirid) = (dirid, basename)
place garbage no_slash = (garbage.did, garbage.basename)
place garbage relative = (garbage.did, garbage.basename)

-- What the handler of afp_opendt stores: an error reply is too short, and stores nothing.
unfoldable pub store_refnum : Reply → M (Unit {0})
store_refnum r s = (tt, if is_set r.code then s else record s { dtrefnum = r.value })

-- What get_dirid returned, where that is not -1. A relative path, for which it is undefined, is not
-- asked for.
abbrev pub found : Located → Option (ℕ × CString)
found (located basename dirid) = some (dirid, basename)
found no_slash = none
found relative = none

-- get_dirid(…), with the result ignored
unfoldable pub find_place : CString → M (ℕ × CString)
find_place path = do l ← get_dirid path; s ← get; pure (place s.garbage l)

-- What ll_getattr asks for, in the bitmaps for a file and for a directory.
unfoldable pub getattr_bitmaps : Session → (resource : Bool) → ℕ × ℕ
getattr_bitmaps s resource =
    let both = attribute_bit + create_date_bit + mod_date_bit + node_id_bit + parent_dir_id_bit in
    let unix = if s.extra_flags.supports_unix then unix_privs_bit else 0 in
    let owner = if s.extra_flags.supports_unix then 0 else owner_id_bit + group_id_bit in
    let len =
      if ltb s.av_number 30
      then (if resource then rsrc_fork_len_bit else data_fork_len_bit)
      else (if resource then ext_rsrc_fork_len_bit else ext_data_fork_len_bit) in
    (both + finder_info_bit + len + unix, both + offspring_count_bit + unix + owner)

-- set_nonunix_perms
unfoldable pub nonunix_perms : FileInfo → ℕ
nonunix_perms fp = if fp.isdir then 0x1c0 + s_ifdir else 0x180 + s_ifreg

-- The end of ll_getattr, from what the server says of the file.
unfoldable pub fill_stat : Session → Bool → FileInfo → ℤ × Stat
unfolding translate_uidgid_to_client nonunix_perms
fill_stat s resource fp =
    let mode =
      if leb 30 s.av_number && not (fp.unixprivs.permissions == 0)
      then fp.unixprivs.permissions
      else nonunix_perms fp in
    let (rc, uid, gid) = translate_uidgid_to_client s fp.unixprivs.uid fp.unixprivs.gid in
    let is_directory = not (bit_and mode s_ifdir == 0) in
    let size = if resource then fp.resourcesize else fp.size in
    let no_times = ltb s.av_number 30 && is_directory in
    let owned = record zero_stat { st_mode = mode; st_uid = uid; st_gid = gid } in
    if is_set rc then (neg eio, owned) else (
      pos 0,
      record owned {
        st_nlink = if is_directory then fp.offspring + 2 else 1;
        st_size = if is_directory then fp.offspring * 34 + 24 else size;
        st_blksize = if is_directory then 0 else 4096;
        st_blocks = if is_directory then 0 else size / 4096;
        st_ctime = if no_times then s.connect_time else fp.creation_date;
        st_mtime = if no_times then s.connect_time else fp.modification_date;
      },
    )

-- Where ll_getattr looks: on AFP 2.x the root is asked for by the name of the volume.
unfoldable pub getattr_place : Session → CString → ℕ → CString → ℕ × CString
getattr_place s path dirid basename =
    if ltb s.av_number 30 && str_eq path (slash ∷ []) then (1, s.volume_name) else (dirid, basename)

unfoldable pub ll_getattr : CString → Bool → M (ℤ × Stat)
ll_getattr path resource = do
  t ← get
  elim (invalid_filename t.av_number t.path_encoding path) [
    | true ↦ pure (neg enametoolong, zero_stat)
    | false ↦ do
      l ← get_dirid path
      s ← get
      from_option (found l) (pure (neg enoent, zero_stat)) λ (dirid, basename).
          let (dirid', name) = getattr_place s path dirid basename in
          let (file_bitmap, dir_bitmap) = getattr_bitmaps s resource in
          do
            (rc, fp) ← getfiledirparms dirid' file_bitmap dir_bitmap name s.garbage
            pure (
                switch rc
                  ((access_denied, (neg eacces, zero_stat))
                    ∷ (object_not_found, (neg enoent, zero_stat))
                    ∷ (no_err, fill_stat s resource fp)
                    ∷ [])
                  (neg eio, zero_stat))
  ]
