-- ===== src/Tests/Handshakes.antt =====
-- The requests and replies of a session at concrete inputs.
use time_capsule_mount.Prelude.{
  ℕ, ◌≡◌, some, List, [], ◌∷◌, ◌++◌, CString, codes, pos, map, replicate, arith,
}
use time_capsule_mount.Dsi.Wire.{htons}
use time_capsule_mount.Reply.Volumes.{VolParms, afp_getvolparms_reply, afp_volopen_reply, show_name}
use time_capsule_mount.Reply.Facts.{Facts, Fits, write_facts, learned}
use time_capsule_mount.Reply.VolumeRead.{volume_replies-write_facts}
use time_capsule_mount.Reply.Block.{date_to_unix}
use time_capsule_mount.Handshake.Replies.{afp_getsrvrparms_reply}
use time_capsule_mount.Handshake.Received.{Ask, received}
use time_capsule_mount.Handshake.RoundTrip.{send, received-send}
use time_capsule_mount.Handshake.Announced.{
  write_parms, volume_of, afp_getsrvrparms_reply-write_parms,
}

abbrev request : Ask
request = Ask.login (codes "AFP3.1") (codes "DHX2") (1 ∷ 2 ∷ [])

received-send_example : received (send 0 request) ≡ some request
received-send_example = received-send 0 request (omega arith, omega arith)

-- A server with two volumes.
abbrev volumes : List (ℕ × CString)
volumes = (0, codes "Backup") ∷ (128, codes "Data") ∷ []

afp_getsrvrparms_reply-write_parms_example :
    afp_getsrvrparms_reply 31
      (λ s. 95 ∷ s)
      (write_parms 1000 volumes ++ [])
      (record { connect_time = 0; volumes = [] })
    ≡ some (
      pos 0,
      record {
        connect_time = date_to_unix 1000;
        volumes = map (volume_of 31 (λ s. 95 ∷ s)) volumes;
      },
    )
afp_getsrvrparms_reply-write_parms_example =
    afp_getsrvrparms_reply-write_parms 31 (λ s. 95 ∷ s) 1000 volumes []
      (record { connect_time = 0; volumes = [] }) (omega arith) (ground arith)

abbrev token : List ℕ
token = replicate 16 7

-- A volume whose bitmap has the attributes, the id and the extended free space.
abbrev facts : Facts
facts = record {
  attributes = 0x40;
  signature = 2;
  creation_date = 0;
  modification_date = 0;
  backup_date = 0;
  volid = 7;
  bytes_free = 4294967295;
  bytes_total = 4294967295;
  name_offset = 20;
  ext_bytes_free = 5000000000;
  ext_bytes_total = 9000000000;
  block_size = 4096;
}

facts-Fits : Fits facts
facts-Fits = record {
  attributes = omega arith;
  signature = omega arith;
  creation_date = omega arith;
  modification_date = omega arith;
  backup_date = omega arith;
  volid = omega arith;
  bytes_free = omega arith;
  bytes_total = omega arith;
  name_offset = omega arith;
  ext_bytes_free = omega arith;
  ext_bytes_total = omega arith;
  block_size = omega arith;
}

abbrev unopened : VolParms
unopened = record {
  attributes = 0;
  signature = 0;
  creation_date = 0;
  modification_date = 0;
  backup_date = 0;
  volid = 0;
  f_bfree = 0;
  f_blocks = 0;
  f_bsize = 512;
  volume_name = codes "Data";
  volume_name_printable = [];
}

volume_replies-write_facts_example :
    (afp_getvolparms_reply (htons 0x261 ++ write_facts 0x261 facts []) unopened
      ≡ some (pos 0, learned 0x261 facts unopened))
    × (afp_volopen_reply (λ s. s) (htons 0x261 ++ write_facts 0x261 facts []) unopened
        ≡ some (pos 0, show_name (λ s. s) (learned 0x261 facts unopened)))
volume_replies-write_facts_example =
    volume_replies-write_facts 0x261 facts facts-Fits [] unopened (λ s. s) (omega arith)
