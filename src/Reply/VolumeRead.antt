-- ===== src/Reply/VolumeRead.antt =====
-- A reply on a volume, as a server writes it, is read by parse_volbitmap_reply of lib/proto_volume.c and
-- its callers.
use mathlib.Core.Option
use time_capsule_mount.Prelude.{
  ℕ, ◌^◌, ◌<◌, ◌≡◌, refl, ap, ◌∙◌, false, some, List, [], CString, ℤ, ltb, ◌∷◌, ◌++◌, pos,
  if◌then◌else◌, length, arith,
}
use time_capsule_mount.Dsi.Wire.{ntohs_at, ntohl_at, htons, htonl}
use time_capsule_mount.Reply.Block.{has, date_to_unix, ntoh64}
use time_capsule_mount.Reply.Fields.{
  hton64, ntohs-htons, ntohs-htons_behind, ntohl-htonl, ntoh64-hton64, length-htons, length-htonl,
  length-hton64,
}
use time_capsule_mount.Reply.Volumes.{
  VolParms, vol_fields, parse_volbitmap_reply, afp_getvolparms_reply, afp_volopen_reply, show_name,
}
use time_capsule_mount.Reply.VolumeBlock.{Column, parse-written}
use time_capsule_mount.Reply.Facts.{Facts, Fits, write_facts, learned}

two_bytes : (n : ℕ) (rest : List ℕ) → ltb (length (htons n ++ rest)) 2 ≡ false
unfolding htons
two_bytes n rest = ground arith

module _ (bitmap : ℕ) (x : Facts) (f : Fits x) where
  abbrev columns : List (Column bitmap)
  columns =
      (record {
        field = record {
          bit = 0x1;
          width = 2;
          store = λ p v. record v { attributes = ntohs_at p 0 };
        };
        bytes = htons x.attributes;
        becomes =
            λ v. record v { attributes = if has bitmap 0x1 then x.attributes else v.attributes };
        fits = length-htons x.attributes;
        stores = λ v e. rw (ntohs-htons x.attributes f.attributes, e) refl;
        keeps = λ v e. rw e refl;
      })
      ∷ (record {
        field = record {
          bit = 0x2;
          width = 2;
          store = λ p v. record v { signature = ntohs_at p 0 };
        };
        bytes = htons x.signature;
        becomes = λ v. record v { signature = if has bitmap 0x2 then x.signature else v.signature };
        fits = length-htons x.signature;
        stores = λ v e. rw (ntohs-htons x.signature f.signature, e) refl;
        keeps = λ v e. rw e refl;
      })
      ∷ (record {
        field = record {
          bit = 0x4;
          width = 4;
          store = λ p v. record v { creation_date = date_to_unix (ntohl_at p 0) };
        };
        bytes = htonl x.creation_date;
        becomes = λ v. record v {
          creation_date = if has bitmap 0x4 then date_to_unix x.creation_date else v.creation_date;
        };
        fits = length-htonl x.creation_date;
        stores = λ v e. rw (ntohl-htonl x.creation_date f.creation_date, e) refl;
        keeps = λ v e. rw e refl;
      })
      ∷ (record {
        field = record {
          bit = 0x8;
          width = 4;
          store = λ p v. record v { modification_date = date_to_unix (ntohl_at p 0) };
        };
        bytes = htonl x.modification_date;
        becomes = λ v. record v {
          modification_date =
              if has bitmap 0x8 then date_to_unix x.modification_date else v.modification_date;
        };
        fits = length-htonl x.modification_date;
        stores = λ v e. rw (ntohl-htonl x.modification_date f.modification_date, e) refl;
        keeps = λ v e. rw e refl;
      })
      ∷ (record {
        field = record {
          bit = 0x10;
          width = 4;
          store = λ p v. record v { backup_date = date_to_unix (ntohl_at p 0) };
        };
        bytes = htonl x.backup_date;
        becomes = λ v. record v {
          backup_date = if has bitmap 0x10 then date_to_unix x.backup_date else v.backup_date;
        };
        fits = length-htonl x.backup_date;
        stores = λ v e. rw (ntohl-htonl x.backup_date f.backup_date, e) refl;
        keeps = λ v e. rw e refl;
      })
      ∷ (record {
        field = record { bit = 0x20; width = 2; store = λ p v. record v { volid = ntohs_at p 0 } };
        bytes = htons x.volid;
        becomes = λ v. record v { volid = if has bitmap 0x20 then x.volid else v.volid };
        fits = length-htons x.volid;
        stores = λ v e. rw (ntohs-htons x.volid f.volid, e) refl;
        keeps = λ v e. rw e refl;
      })
      ∷ (record {
        field = record {
          bit = 0x40;
          width = 4;
          store = λ p v. record v { f_bfree = ntohl_at p 0 };
        };
        bytes = htonl x.bytes_free;
        becomes = λ v. record v { f_bfree = if has bitmap 0x40 then x.bytes_free else v.f_bfree };
        fits = length-htonl x.bytes_free;
        stores = λ v e. rw (ntohl-htonl x.bytes_free f.bytes_free, e) refl;
        keeps = λ v e. rw e refl;
      })
      ∷ (record {
        field = record {
          bit = 0x80;
          width = 4;
          store = λ p v. record v { f_blocks = ntohl_at p 0 };
        };
        bytes = htonl x.bytes_total;
        becomes =
            λ v. record v { f_blocks = if has bitmap 0x80 then x.bytes_total else v.f_blocks };
        fits = length-htonl x.bytes_total;
        stores = λ v e. rw (ntohl-htonl x.bytes_total f.bytes_total, e) refl;
        keeps = λ v e. rw e refl;
      })
      ∷ (record {
        field = record { bit = 0x100; width = 2; store = λ p v. v };
        bytes = htons x.name_offset;
        becomes = λ v. v;
        fits = length-htons x.name_offset;
        stores = λ v e. refl;
        keeps = λ v e. refl;
      })
      ∷ (record {
        field = record { bit = 0x200; width = 8; store = λ p v. record v { f_bfree = ntoh64 p } };
        bytes = hton64 x.ext_bytes_free;
        becomes =
            λ v. record v { f_bfree = if has bitmap 0x200 then x.ext_bytes_free else v.f_bfree };
        fits = length-hton64 x.ext_bytes_free;
        stores = λ v e. rw (ntoh64-hton64 x.ext_bytes_free f.ext_bytes_free, e) refl;
        keeps = λ v e. rw e refl;
      })
      ∷ (record {
        field = record { bit = 0x400; width = 8; store = λ p v. record v { f_blocks = ntoh64 p } };
        bytes = hton64 x.ext_bytes_total;
        becomes =
            λ v. record v { f_blocks = if has bitmap 0x400 then x.ext_bytes_total else v.f_blocks };
        fits = length-hton64 x.ext_bytes_total;
        stores = λ v e. rw (ntoh64-hton64 x.ext_bytes_total f.ext_bytes_total, e) refl;
        keeps = λ v e. rw e refl;
      })
      ∷ (record {
        field = record {
          bit = 0x800;
          width = 4;
          store = λ p v. record v { f_bsize = ntohl_at p 0 };
        };
        bytes = htonl x.block_size;
        becomes = λ v. record v { f_bsize = if has bitmap 0x800 then x.block_size else v.f_bsize };
        fits = length-htonl x.block_size;
        stores = λ v e. rw (ntohl-htonl x.block_size f.block_size, e) refl;
        keeps = λ v e. rw e refl;
      })
      ∷ []

  parse_volbitmap_reply-write_facts :
      (tail : List ℕ) (v : VolParms)
      → parse_volbitmap_reply bitmap (write_facts bitmap x tail) v ≡ some (learned bitmap x v)
  unfolding parse_volbitmap_reply vol_fields write_facts learned
  parse_volbitmap_reply-write_facts tail v = parse-written bitmap columns tail v

  abbrev stored : (VolParms → VolParms) → VolParms → ℤ × VolParms
  stored view w = (pos 0, view w)

  -- Where each number fits its field, a reply on a volume returns 0 and stores the fields of its bitmap
  -- as the server wrote them, whatever follows them: the dates as times of Unix, the sizes from the
  -- extended fields where they are there, and what is not in the bitmap stays as it was. At the opening
  -- of a volume the name is then shown as it is stored, or composed where the volume has UTF-8 names.
  pub volume_replies-write_facts :
      (tail : List ℕ) (v : VolParms) (to_utf8pre : CString → CString)
      → bitmap < 2 ^ 16
      → (afp_getvolparms_reply (htons bitmap ++ write_facts bitmap x tail) v
          ≡ some (pos 0, learned bitmap x v))
        × (afp_volopen_reply to_utf8pre (htons bitmap ++ write_facts bitmap x tail) v
            ≡ some (pos 0, show_name to_utf8pre (learned bitmap x v)))
  unfolding afp_getvolparms_reply afp_volopen_reply htons
  volume_replies-write_facts tail v to_utf8pre h =
      let bits : ntohs_at (htons bitmap ++ write_facts bitmap x tail) 0 ≡ bitmap =
        ntohs-htons_behind bitmap (write_facts bitmap x tail) h in
      let read : parse_volbitmap_reply (ntohs_at (htons bitmap ++ write_facts bitmap x tail) 0)
            (write_facts bitmap x tail) v
          ≡ some (learned bitmap x v) =
        ap (λ b. parse_volbitmap_reply b (write_facts bitmap x tail) v) bits
        ∙ parse_volbitmap_reply-write_facts tail v in
      let whole : ltb (length (htons bitmap ++ write_facts bitmap x tail)) 2 ≡ false =
        two_bytes bitmap (write_facts bitmap x tail) in
      (
        rw whole (ap (Option.map (stored (λ w. w))) read),
        rw whole (ap (Option.map (stored (show_name to_utf8pre))) read),
      )
