-- ===== src/Reply/Written.antt =====
-- A block of lib/proto_replyblock.c as a server writes it, and what the client is to make of it.
use time_capsule_mount.Prelude.{ℕ, Bool, false, List, [], ◌∷◌, ◌++◌, if◌then◌else◌}
use time_capsule_mount.Afp.Types.{FileInfo, zero_info}
use time_capsule_mount.Afp.Bits
use time_capsule_mount.Dsi.Wire.{htons, htonl}
use time_capsule_mount.Reply.Block.{has, date_to_unix}
use time_capsule_mount.Reply.Fields.{hton64}
use time_capsule_mount.Reply.Values.{Values}

-- What the client is to make of the values: a field that the bitmap does not ask for stays zero, and
-- where two fields are stored in the same place the later one stays.
unfoldable pub described : (isdir : Bool) → ℕ → Values → FileInfo
described isdir bitmap v =
    let pick : ℕ → ℕ → ℕ → ℕ = λ bit n else_n. if has bitmap bit then n else else_n in
    let dir : ℕ → ℕ → ℕ = λ bit n. if isdir then pick bit n 0 else 0 in
    let file : ℕ → ℕ → ℕ → ℕ = λ bit n else_n. if isdir then else_n else pick bit n else_n in
    let u = v.unixprivs in
    record {
      attributes = pick Bits.attribute_bit v.attributes 0;
      did = pick Bits.parent_dir_id_bit v.did 0;
      creation_date = pick Bits.create_date_bit (date_to_unix v.creation_date) 0;
      modification_date = pick Bits.mod_date_bit (date_to_unix v.modification_date) 0;
      backup_date = pick Bits.backup_date_bit (date_to_unix v.backup_date) 0;
      fileid = pick Bits.node_id_bit v.fileid 0;
      offspring = dir Bits.offspring_count_bit v.offspring;
      finderinfo = if has bitmap Bits.finder_info_bit then v.finderinfo else zero_info.finderinfo;
      name =
          if has bitmap Bits.utf8_name_bit
          then v.utf8_name
          else (if has bitmap Bits.long_name_bit then v.long_name else []);
      basename = [];
      unixprivs = if has bitmap Bits.unix_privs_bit then u else record {
        uid = dir Bits.owner_id_bit v.owner;
        gid = dir Bits.group_id_bit v.group;
        permissions = 0;
        ua_permissions = 0;
      };
      accessrights = dir Bits.access_rights_bit v.accessrights;
      isdir = isdir;
      size =
          file Bits.ext_data_fork_len_bit v.ext_data_len (file Bits.data_fork_len_bit v.data_len 0);
      resourcesize =
          pick Bits.ext_rsrc_fork_len_bit v.ext_rsrc_len (file Bits.rsrc_fork_len_bit v.rsrc_len 0);
      resource = 0;
      forkid = 0;
      eof = false;
    }

abbrev pub privs_bytes : Values → List ℕ
privs_bytes v =
    htonl v.unixprivs.uid
    ++ htonl v.unixprivs.gid
    ++ htonl v.unixprivs.permissions
    ++ htonl v.unixprivs.ua_permissions

-- The fields that a server writes for the bitmap; four bytes of a hint follow the offset of the UTF-8
-- name.
unfoldable pub write_block : (isdir : Bool) → ℕ → Values → List ℕ
write_block isdir bitmap v =
    let put : ℕ → List ℕ → List ℕ → List ℕ =
      λ bit bytes rest. if has bitmap bit then bytes ++ rest else rest in
    let two : ℕ → ℕ → List ℕ → List ℕ = λ bit n. put bit (htons n) in
    let four : ℕ → ℕ → List ℕ → List ℕ = λ bit n. put bit (htonl n) in
    let last : List ℕ = put Bits.utf8_name_bit (htons v.utf8_offset ++ 0 ∷ 0 ∷ 0 ∷ 0 ∷ []) (
      put Bits.ext_rsrc_fork_len_bit (hton64 v.ext_rsrc_len)
        (put Bits.unix_privs_bit (privs_bytes v) [])) in
    let middle : List ℕ =
      (if isdir
        then two Bits.offspring_count_bit v.offspring (
            four Bits.owner_id_bit v.owner
              (four Bits.group_id_bit v.group (four Bits.access_rights_bit v.accessrights last)))
        else four Bits.data_fork_len_bit v.data_len (
            four Bits.rsrc_fork_len_bit v.rsrc_len (
              put Bits.ext_data_fork_len_bit (hton64 v.ext_data_len)
                (two Bits.launch_limit_bit v.launch_limit last)))) in
    two Bits.attribute_bit v.attributes (
      four Bits.parent_dir_id_bit v.did (
        four Bits.create_date_bit v.creation_date (
          four Bits.mod_date_bit v.modification_date (
            four Bits.backup_date_bit v.backup_date (
              put Bits.finder_info_bit v.finderinfo (
                two Bits.long_name_bit v.long_offset (
                  two Bits.short_name_bit v.short_offset
                    (four Bits.node_id_bit v.fileid middle))))))))
