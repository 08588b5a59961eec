-- ===== src/Packet/Build.antt =====
-- The request builders of lib/proto_*.c: the bytes that follow the DSI header in each packet. `none` is
-- a path that cannot be sent.
use time_capsule_mount.Prelude.{
  ℕ, ◌+◌, ◌-◌, ◌/◌, ◌%◌, ◌^◌, Option, none, some, List, [], ◌∷◌, ◌++◌, CString, ◌==◌, if◌then◌else◌,
  length, replicate,
}
use time_capsule_mount.Afp.Types.{FileInfo}
use time_capsule_mount.Afp.Bits
use time_capsule_mount.Afp.Request.{Request}
use time_capsule_mount.Dsi.Wire.{htons, htonl}
use time_capsule_mount.Reply.Block.{has}
use time_capsule_mount.Reply.Fields.{hton64}
use time_capsule_mount.Reply.Pascal.{copy_to_pascal}
use time_capsule_mount.Packet.Paths.{path_bytes, sizeof_path_header}

-- What the builders read from the volume and its server.
pub record Ids : Type 0 where
  pub volid : ℕ
  pub dtrefnum : ℕ
  pub path_encoding : ℕ

abbrev pub with_path : {A : Type 0} → Ids → CString → (List ℕ → Option A) → Option A
with_path i name next = elim (path_bytes i.path_encoding name) [ none ↦ none | some p ↦ next p ]

-- The command, the byte behind it, and two ids, with which most of the packets begin.
abbrev head : (command flag id : ℕ) → ℕ → List ℕ → List ℕ
head command flag id did rest = command ∷ flag ∷ (htons id ++ htonl did ++ rest)

module _ (i : Ids) where
  open i use {volid, dtrefnum}

  unfoldable pub afp_createfile : (flag did : ℕ) → CString → Option (List ℕ)
  afp_createfile flag did name = with_path i name λ p. some (head 7 (flag % 256) volid did p)

  unfoldable pub afp_createdir : (did : ℕ) → CString → Option (List ℕ)
  afp_createdir did name = with_path i name λ p. some (head 6 0 volid did p)

  unfoldable pub afp_delete : (did : ℕ) → CString → Option (List ℕ)
  afp_delete did name = with_path i name λ p. some (head 8 0 volid did p)

  unfoldable pub afp_moveandrename :
      (src_did dst_did : ℕ) → CString → Option CString → CString → Option (List ℕ)
  afp_moveandrename src_did dst_did src_path dst_path new_name =
      let dst : CString = elim dst_path [ none ↦ [] | some path ↦ path ] in
      with_path i src_path λ src. with_path i dst λ dst.
        with_path i new_name
          λ new. some (head 23 0 volid src_did (htonl dst_did ++ (src ++ (dst ++ new))))

  unfoldable pub afp_openfork : (forktype did accessmode : ℕ) → CString → Option (List ℕ)
  afp_openfork forktype did accessmode name = with_path i name λ p.
      let fork = if forktype == 0 then 0 else 0x80 in
      some (head 26 fork volid did (htons 0 ++ htons accessmode ++ p))

  unfoldable pub afp_getfiledirparms : (did filebitmap dirbitmap : ℕ) → CString → Option (List ℕ)
  afp_getfiledirparms did filebitmap dirbitmap name =
      with_path i name λ p. some (head 34 0 volid did (htons filebitmap ++ htons dirbitmap ++ p))

  unfoldable pub afp_enumerate :
      (did filebitmap dirbitmap reqcount startindex : ℕ) → CString → Option (List ℕ)
  afp_enumerate did filebitmap dirbitmap reqcount startindex name = with_path i name λ p. some (
      head 9 0 volid did (
        htons filebitmap
        ++ htons dirbitmap
        ++ htons reqcount
        ++ htons startindex
        ++ htons 5280
        ++ p))

  unfoldable pub afp_enumerateext2 :
      (did filebitmap dirbitmap reqcount startindex : ℕ) → CString → Option (List ℕ)
  afp_enumerateext2 did filebitmap dirbitmap reqcount startindex name = with_path i name λ p. some (
      head 68 0 volid did (
        htons filebitmap
        ++ htons dirbitmap
        ++ htons reqcount
        ++ htonl startindex
        ++ htonl 5280
        ++ p))

  unfoldable pub afp_getcomment : (did : ℕ) → CString → Option (List ℕ)
  afp_getcomment did name = with_path i name λ p. some (head 58 0 dtrefnum did p)

  unfoldable pub afp_opendt : List ℕ
  afp_opendt = 48 ∷ 0 ∷ htons volid

  unfoldable pub afp_getvolparms : (bitmap : ℕ) → List ℕ
  afp_getvolparms bitmap = 17 ∷ 0 ∷ (htons volid ++ htons bitmap)

  unfoldable pub afp_flush : List ℕ
  afp_flush = 10 ∷ 0 ∷ htons volid

unfoldable pub afp_closefork : (forkid : ℕ) → List ℕ
afp_closefork forkid = 4 ∷ 0 ∷ htons forkid

unfoldable pub afp_flushfork : (forkid : ℕ) → List ℕ
afp_flushfork forkid = 11 ∷ 0 ∷ htons forkid

unfoldable pub afp_read : (forkid offset count : ℕ) → List ℕ
afp_read forkid offset count = 27 ∷ 0 ∷ (htons forkid ++ htonl offset ++ htonl count ++ 0 ∷ 0 ∷ [])

unfoldable pub afp_readext : (forkid offset count : ℕ) → List ℕ
afp_readext forkid offset count = 60 ∷ 0 ∷ (htons forkid ++ hton64 offset ++ hton64 count)

unfoldable pub afp_write : (forkid offset reqcount : ℕ) → List ℕ → List ℕ
afp_write forkid offset reqcount data_bytes =
    33 ∷ 0 ∷ (htons forkid ++ htonl offset ++ htonl reqcount ++ data_bytes)

unfoldable pub afp_writeext : (forkid offset reqcount : ℕ) → List ℕ → List ℕ
afp_writeext forkid offset reqcount data_bytes =
    61 ∷ 0 ∷ (htons forkid ++ hton64 offset ++ hton64 reqcount ++ data_bytes)

unfoldable pub afp_byterangelock : (flag forkid offset len : ℕ) → List ℕ
afp_byterangelock flag forkid offset len = 1 ∷ flag ∷ (htons forkid ++ htonl offset ++ htonl len)

unfoldable pub afp_byterangelockext : (flag forkid offset len : ℕ) → List ℕ
afp_byterangelockext flag forkid offset len =
    59 ∷ flag ∷ (htons forkid ++ hton64 offset ++ hton64 len)

-- The long length is stored with htonl in a field of eight bytes, on a little-endian machine.
unfoldable pub afp_setforkparms : (forkid bitmap len : ℕ) → List ℕ
afp_setforkparms forkid bitmap len =
    let newlen =
      (if has bitmap (Bits.ext_data_fork_len_bit + Bits.ext_rsrc_fork_len_bit)
        then htonl len ++ 0 ∷ 0 ∷ 0 ∷ 0 ∷ []
        else htonl len) in
    31 ∷ 0 ∷ (htons forkid ++ htons bitmap ++ newlen)

unfoldable pub afp_getuserinfo : (thisuser userid bitmap : ℕ) → List ℕ
afp_getuserinfo thisuser userid bitmap =
    37 ∷ (if thisuser == 0 then 0 else 1) ∷ (htonl userid ++ htons bitmap)

unfoldable pub afp_mapid : (subfunction id : ℕ) → List ℕ
afp_mapid subfunction id = 21 ∷ subfunction % 256 ∷ htonl id

-- The byte that brings what follows to an even address: msg is even.
abbrev pub pad_for : ℕ → List ℕ
pad_for n = if n % 2 == 0 then [] else 0 ∷ []

unfoldable pub afp_addcomment : Ids → (did : ℕ) → CString → (comment : List ℕ) → Option (List ℕ)
afp_addcomment i did name comment = with_path i name λ p.
    let pad = pad_for (sizeof_path_header i.path_encoding + length name) in
    let pascal = copy_to_pascal comment in
    some (
      head 56 0 i.dtrefnum did
        (p ++ pad ++ pascal ++ replicate (length comment + 1 - length pascal) 0))

-- AD_DATE_FROM_UNIX
abbrev date_from_unix : ℕ → List ℕ
date_from_unix t = htonl ((t + (2 ^ 32 - 946684800)) % 2 ^ 32)

-- afp_setparms_lowlevel. Of the attributes only the first byte is stored.
unfoldable pub afp_setparms_lowlevel :
    Ids → (did : ℕ) → CString → (bitmap : ℕ) → FileInfo → (command : ℕ) → Option (List ℕ)
afp_setparms_lowlevel i did name bitmap fp command = with_path i name λ p.
    let pad = pad_for (sizeof_path_header i.path_encoding + length name) in
    let put : ℕ → List ℕ → List ℕ = λ bit bytes. if has bitmap bit then bytes else [] in
    let u = fp.unixprivs in
    some (
      head command 0 i.volid did (
        htons bitmap
        ++ p
        ++ pad
        ++ put Bits.attribute_bit (fp.attributes / 256 % 256 ∷ 0 ∷ [])
        ++ put Bits.create_date_bit (date_from_unix fp.creation_date)
        ++ put Bits.mod_date_bit (date_from_unix fp.modification_date)
        ++ put Bits.backup_date_bit (date_from_unix fp.backup_date)
        ++ put Bits.finder_info_bit fp.finderinfo
        ++ put Bits.unix_privs_bit
            (htonl u.uid ++ htonl u.gid ++ htonl u.permissions ++ htonl u.ua_permissions)))

-- The packet of each request.
unfoldable pub packet : Ids → Request → Option (List ℕ)
packet i (Request.create_file flag did name) = afp_createfile i flag did name
packet i (Request.create_dir did name) = afp_createdir i did name
packet i (Request.delete did name) = afp_delete i did name
packet i (Request.move_and_rename a b from to new) = afp_moveandrename i a b from to new
packet i (Request.open_fork fork did access name) = afp_openfork i fork did access name
packet i (Request.close_fork f) = some (afp_closefork f)
packet i (Request.flush_fork f) = some (afp_flushfork f)
packet i (Request.read f o c) = some (afp_read f o c)
packet i (Request.read_ext f o c) = some (afp_readext f o c)
packet i (Request.write f o c d) = some (afp_write f o c d)
packet i (Request.write_ext f o c d) = some (afp_writeext f o c d)
packet i (Request.set_fork_parms f b l) = some (afp_setforkparms f b l)
packet i (Request.lock f o c) = some (afp_byterangelock 0 f o c)
packet i (Request.unlock f o c) = some (afp_byterangelock 1 f o c)
packet i (Request.lock_ext f o c) = some (afp_byterangelockext 0 f o c)
packet i (Request.unlock_ext f o c) = some (afp_byterangelockext 1 f o c)
packet i (Request.get_file_dir_parms did fb db name) = afp_getfiledirparms i did fb db name
packet i (Request.set_file_dir_parms did name b fp) = afp_setparms_lowlevel i did name b fp 35
packet i (Request.set_dir_parms did name b fp) = afp_setparms_lowlevel i did name b fp 29
packet i (Request.set_file_parms did name b fp) = afp_setparms_lowlevel i did name b fp 30
packet i (Request.enumerate did fb db r s name) = afp_enumerate i did fb db r s name
packet i (Request.enumerate_ext2 did fb db r s name) = afp_enumerateext2 i did fb db r s name
packet i Request.open_dt = some (afp_opendt i)
packet i (Request.get_comment did name) = afp_getcomment i did name
packet i (Request.add_comment did name comment) = afp_addcomment i did name comment
packet i (Request.get_vol_parms b) = some (afp_getvolparms i b)
packet i (Request.get_user_info b) = some (afp_getuserinfo 1 0 b)
packet i (Request.map_id s id) = some (afp_mapid s id)
