-- ===== src/Reply/Facts.antt =====
-- What a server writes into a reply on a volume for lib/proto_volume.c, and what the client is to make of
-- it.
use time_capsule_mount.Prelude.{ℕ, ◌^◌, ◌<◌, List, [], ◌++◌, if◌then◌else◌}
use time_capsule_mount.Dsi.Wire.{htons, htonl}
use time_capsule_mount.Reply.Block.{has, date_to_unix}
use time_capsule_mount.Reply.Fields.{hton64}
use time_capsule_mount.Reply.Volumes.{VolParms}

-- What a server knows of a volume.
pub record Facts : Type 0 where
  pub attributes : ℕ
  pub signature : ℕ
  pub creation_date : ℕ
  pub modification_date : ℕ
  pub backup_date : ℕ
  pub volid : ℕ
  pub bytes_free : ℕ
  pub bytes_total : ℕ
  pub name_offset : ℕ
  pub ext_bytes_free : ℕ
  pub ext_bytes_total : ℕ
  pub block_size : ℕ

-- Each number fits its field.
pub record Fits (x : Facts) : Type 0 where
  pub attributes : x.attributes < 2 ^ 16
  pub signature : x.signature < 2 ^ 16
  pub creation_date : x.creation_date < 2 ^ 32
  pub modification_date : x.modification_date < 2 ^ 32
  pub backup_date : x.backup_date < 2 ^ 32
  pub volid : x.volid < 2 ^ 16
  pub bytes_free : x.bytes_free < 2 ^ 32
  pub bytes_total : x.bytes_total < 2 ^ 32
  pub name_offset : x.name_offset < 2 ^ 16
  pub ext_bytes_free : x.ext_bytes_free < 2 ^ 64
  pub ext_bytes_total : x.ext_bytes_total < 2 ^ 64
  pub block_size : x.block_size < 2 ^ 32

-- The fields whose bits are set, in their order, and what follows them.
unfoldable pub write_facts : (bitmap : ℕ) → Facts → (tail : List ℕ) → List ℕ
write_facts bitmap x tail =
    (if has bitmap 0x1 then htons x.attributes else [])
    ++ ((if has bitmap 0x2 then htons x.signature else [])
        ++ ((if has bitmap 0x4 then htonl x.creation_date else [])
            ++ ((if has bitmap 0x8 then htonl x.modification_date else [])
                ++ ((if has bitmap 0x10 then htonl x.backup_date else [])
                    ++ ((if has bitmap 0x20 then htons x.volid else [])
                        ++ ((if has bitmap 0x40 then htonl x.bytes_free else [])
                            ++ ((if has bitmap 0x80 then htonl x.bytes_total else [])
                                ++ ((if has bitmap 0x100 then htons x.name_offset else [])
                                    ++ ((if has bitmap 0x200 then hton64 x.ext_bytes_free else [])
                                        ++ ((if has bitmap 0x400
                                              then hton64 x.ext_bytes_total
                                              else [])
                                            ++ ((if has bitmap 0x800
                                                  then htonl x.block_size
                                                  else [])
                                                ++ tail)))))))))))

-- What the client is to make of them: the extended sizes count before the short ones.
unfoldable pub learned : (bitmap : ℕ) → Facts → VolParms → VolParms
learned bitmap x v = record v {
  attributes = if has bitmap 0x1 then x.attributes else v.attributes;
  signature = if has bitmap 0x2 then x.signature else v.signature;
  creation_date = if has bitmap 0x4 then date_to_unix x.creation_date else v.creation_date;
  modification_date =
      if has bitmap 0x8 then date_to_unix x.modification_date else v.modification_date;
  backup_date = if has bitmap 0x10 then date_to_unix x.backup_date else v.backup_date;
  volid = if has bitmap 0x20 then x.volid else v.volid;
  f_bsize = if has bitmap 0x800 then x.block_size else v.f_bsize;
  f_bfree =
      if has bitmap 0x200
      then x.ext_bytes_free
      else if has bitmap 0x40
      then x.bytes_free
      else v.f_bfree;
  f_blocks =
      if has bitmap 0x400
      then x.ext_bytes_total
      else if has bitmap 0x80
      then x.bytes_total
      else v.f_blocks;
}
