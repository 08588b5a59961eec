-- ===== src/Reply/Volumes.antt =====
-- parse_volbitmap_reply of lib/proto_volume.c, afp_volopen_reply and afp_getvolparms_reply on it. `body`
-- is the packet after its DSI header. `none` is a read behind its end: the macro checksize stands before
-- the first field only, where it tests nothing.
use mathlib.Core.Option
use time_capsule_mount.Prelude.{
  ℕ, Option, none, some, List, [], ◌∷◌, CString, ℤ, pos, neg, leb, ltb, if◌then◌else◌, length, take,
  drop,
}
use time_capsule_mount.Dsi.Wire.{ntohs_at, ntohl_at}
use time_capsule_mount.Reply.Block.{has, date_to_unix, ntoh64}

-- The fields of struct afp_volume that a reply on a volume stores.
pub record VolParms : Type 0 where
  pub attributes : ℕ
  pub signature : ℕ
  pub creation_date : ℕ
  pub modification_date : ℕ
  pub backup_date : ℕ
  pub volid : ℕ
  pub f_bfree : ℕ
  pub f_blocks : ℕ
  pub f_bsize : ℕ
  pub volume_name : CString
  pub volume_name_printable : CString

-- A test for a bit, with its width and what is stored: the block of an if.
pub record VolField : Type 0 where
  pub bit : ℕ
  pub width : ℕ
  pub store : List ℕ → VolParms → VolParms

-- The blocks in their order. The offset of the name is read and not used.
unfoldable pub vol_fields : List VolField
vol_fields =
    (record { bit = 0x1; width = 2; store = λ p v. record v { attributes = ntohs_at p 0 } })
    ∷ (record { bit = 0x2; width = 2; store = λ p v. record v { signature = ntohs_at p 0 } })
    ∷ (record {
      bit = 0x4;
      width = 4;
      store = λ p v. record v { creation_date = date_to_unix (ntohl_at p 0) };
    })
    ∷ (record {
      bit = 0x8;
      width = 4;
      store = λ p v. record v { modification_date = date_to_unix (ntohl_at p 0) };
    })
    ∷ (record {
      bit = 0x10;
      width = 4;
      store = λ p v. record v { backup_date = date_to_unix (ntohl_at p 0) };
    })
    ∷ (record { bit = 0x20; width = 2; store = λ p v. record v { volid = ntohs_at p 0 } })
    ∷ (record { bit = 0x40; width = 4; store = λ p v. record v { f_bfree = ntohl_at p 0 } })
    ∷ (record { bit = 0x80; width = 4; store = λ p v. record v { f_blocks = ntohl_at p 0 } })
    ∷ (record { bit = 0x100; width = 2; store = λ p v. v })
    ∷ (record { bit = 0x200; width = 8; store = λ p v. record v { f_bfree = ntoh64 p } })
    ∷ (record { bit = 0x400; width = 8; store = λ p v. record v { f_blocks = ntoh64 p } })
    ∷ (record { bit = 0x800; width = 4; store = λ p v. record v { f_bsize = ntohl_at p 0 } })
    ∷ []

unfoldable pub parse_vol_fields : List VolField → (bitmap : ℕ) → List ℕ → VolParms → Option VolParms
parse_vol_fields [] bitmap p v = some v
parse_vol_fields (f ∷ fs) bitmap p v =
    if has bitmap f.bit
    then (if leb f.width (length p)
        then parse_vol_fields fs bitmap (drop f.width p) (f.store (take f.width p) v)
        else none)
    else parse_vol_fields fs bitmap p v

unfoldable pub parse_volbitmap_reply : (bitmap : ℕ) → List ℕ → VolParms → Option VolParms
unfolding parse_vol_fields vol_fields
parse_volbitmap_reply bitmap p v = parse_vol_fields vol_fields bitmap p v

unfoldable pub afp_getvolparms_reply : (body : List ℕ) → VolParms → Option (ℤ × VolParms)
unfolding parse_volbitmap_reply
afp_getvolparms_reply body v =
    if ltb (length body) 2
    then some (neg 1, v)
    else Option.map (λ w. (pos 0, w)) (parse_volbitmap_reply (ntohs_at body 0) (drop 2 body) v)

-- The name is shown as it is, or composed by convert_utf8dec_to_utf8pre, which works on the tables of
-- lib/unicode.c. 0x40 is kSupportsUTF8Names.
abbrev pub show_name : (CString → CString) → VolParms → VolParms
show_name to_utf8pre v = record v {
  volume_name_printable = if has v.attributes 0x40 then to_utf8pre v.volume_name else v.volume_name;
}

unfoldable pub afp_volopen_reply :
    (CString → CString) → (body : List ℕ) → VolParms → Option (ℤ × VolParms)
unfolding parse_volbitmap_reply
afp_volopen_reply to_utf8pre body v =
    if ltb (length body) 2
    then some (neg 1, v)
    else Option.map (λ w. (pos 0, show_name to_utf8pre w))
        (parse_volbitmap_reply (ntohs_at body 0) (drop 2 body) v)
