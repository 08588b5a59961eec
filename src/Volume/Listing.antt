-- ===== src/Volume/Listing.antt =====
-- Reading a directory: ll_readdir of lib/lowlevel.c.
use time_capsule_mount.Prelude.{
  ℕ, zero, suc, ◌+◌, ◌^◌, Bool, true, false, List, [], ◌∷◌, ◌++◌, map, CString, ℤ, neg, length, ltb,
  if◌then◌else◌,
}
use Prim.Native.Nat.{◌%◌}
use time_capsule_mount.Afp.Codes.{
  no_err, access_denied, bitmap_err, call_not_supported, dir_not_found, misc_err, object_not_found,
  object_type_err, param_err,
}
use time_capsule_mount.Afp.Errno.{enoent, eio, eacces, enametoolong}
use time_capsule_mount.Afp.Bits.{
  attribute_bit, parent_dir_id_bit, create_date_bit, mod_date_bit, backup_date_bit, long_name_bit,
  short_name_bit, node_id_bit, offspring_count_bit, owner_id_bit, group_id_bit, utf8_name_bit,
  unix_privs_bit, data_fork_len_bit, rsrc_fork_len_bit, ext_data_fork_len_bit,
}
use time_capsule_mount.Afp.Types.{FileInfo}
use time_capsule_mount.Afp.Request.{Request, enumerate, enumerate_ext2}
use time_capsule_mount.Afp.Session.{Session, M, get, pure, ◌>>=◌, exchange}
use time_capsule_mount.Did.Lookup.{get_dirid}
use time_capsule_mount.Volume.Control.{from_option, switch}
use time_capsule_mount.Volume.Names.{invalid_filename}
use time_capsule_mount.Volume.Attr.{found, nonunix_perms, set_permissions}

-- What ll_readdir gives: 0 with *fb, an error, or nothing yet after all the fuel.
pub data Listing : Type 0 where
  listed : List FileInfo → Listing
  failed : ℤ → Listing
  unfinished : Listing

-- The cases of switch(rc).
pub data Case : Type 0 where
  append_and_go_on append_and_exit exit ignore : Case
  error : ℕ → Case

abbrev pub case_of : ℤ → Case
case_of rc =
    switch rc
      ((neg 1, Case.error eio)
        ∷ (no_err, Case.append_and_go_on)
        ∷ (object_not_found, Case.append_and_exit)
        ∷ (access_denied, Case.error eacces)
        ∷ (dir_not_found, Case.exit)
        ∷ (bitmap_err, Case.error eio)
        ∷ (misc_err, Case.error eio)
        ∷ (object_type_err, Case.error eio)
        ∷ (param_err, Case.error eio)
        ∷ (call_not_supported, Case.error eio)
        ∷ [])
      Case.ignore

-- while (!exit): `request` is the call at a startindex, and the fuel bounds the rounds.
unfoldable pub list_batches :
    ℕ → (request : ℕ → Request) → (startindex : ℕ) → (filebase : List FileInfo) → M Listing
list_batches zero request startindex filebase = pure Listing.unfinished
list_batches (suc fuel) request startindex filebase = do
  reply ← exchange (request startindex)
  elim (case_of reply.code) [
    | Case.append_and_go_on ↦
        list_batches fuel request (startindex + length reply.entries) (filebase ++ reply.entries)
    | Case.append_and_exit ↦ pure (Listing.listed (filebase ++ reply.entries))
    | Case.exit ↦ pure (Listing.listed filebase)
    | Case.ignore ↦ list_batches fuel request startindex filebase
    | Case.error e ↦ pure (Listing.failed (neg e))
  ]

-- filebitmap and dirbitmap
unfoldable pub readdir_bitmaps : Session → (resource : Bool) → ℕ × ℕ
readdir_bitmaps s resource =
    let both =
      attribute_bit + parent_dir_id_bit + create_date_bit + mod_date_bit + backup_date_bit
      + node_id_bit in
    let unix = if s.extra_flags.supports_unix then unix_privs_bit else 0 in
    let name =
      if s.attributes.supports_utf8_names then utf8_name_bit else long_name_bit + short_name_bit in
    let data_len = if ltb s.av_number 30 then data_fork_len_bit else ext_data_fork_len_bit in
    let len = if resource then rsrc_fork_len_bit else data_len in
    (
      both + unix + name + len,
      both + offspring_count_bit + owner_id_bit + group_id_bit + unix + name,
    )

-- A round's call: afp_enumerate takes startindex as an unsigned short, and afp_enumerateext2 sends 32
-- bits of it. Batches are of 20.
unfoldable pub enumerate_from : Session → Bool → (dirid : ℕ) → CString → (startindex : ℕ) → Request
enumerate_from s resource dirid basename startindex =
    let (filebitmap, dirbitmap) = readdir_bitmaps s resource in
    if ltb s.av_number 30
    then enumerate dirid filebitmap dirbitmap 20 (startindex % 2 ^ 16) basename
    else enumerate_ext2 dirid filebitmap dirbitmap 20 (startindex % 2 ^ 32) basename

-- set_nonunix_perms on each entry, for AFP 2.x. What convert_path_to_unix makes of the names is not
-- stored.
unfoldable pub finished : Session → Listing → Listing
finished s (Listing.listed files) =
    Listing.listed
      (if ltb s.av_number 30 then map (λ p. set_permissions (nonunix_perms p) p) files else files)
finished s (Listing.failed e) = Listing.failed e
finished s Listing.unfinished = Listing.unfinished

-- `fuel` bounds the rounds.
unfoldable pub ll_readdir : (fuel : ℕ) → (path : CString) → (resource : Bool) → M Listing
ll_readdir fuel path resource = do
  t ← get
  elim (invalid_filename t.av_number t.path_encoding path) [
    | true ↦ pure (Listing.failed (neg enametoolong))
    | false ↦ do
      l ← get_dirid path
      s ← get
      from_option (found l) (pure (Listing.failed (neg enoent))) λ (dirid, basename). do
        listing ← list_batches fuel (enumerate_from s resource dirid basename) 1 []
        pure (finished s listing)
  ]
