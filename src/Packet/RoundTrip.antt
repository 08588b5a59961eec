-- ===== src/Packet/RoundTrip.antt =====
-- The builders of lib/proto_*.c and the server: the packet of a request is read as this request.
use time_capsule_mount.Prelude.{
  ℕ, ◌==◌, ◌+◌, ◌^◌, ◌<◌, ◌≡◌, refl, Option, none, some, List, [], ◌∷◌, ◌++◌, CString, drop,
  if◌then◌else◌, ◌*◌, arith, append-nil, subst, ap, ◌∙◌,
}
use time_capsule_mount.Afp.Request.{Request}
use time_capsule_mount.Afp.Bits
use time_capsule_mount.Reply.Block.{has, ntoh64}
use time_capsule_mount.Dsi.Wire.{ntohs_at, ntohl_at, htons, htonl}
use time_capsule_mount.Reply.Fields.{hton64}
use time_capsule_mount.Packet.Paths.{path_bytes, decode_path, IsPath, Sent, path_bytes-Sent}
use time_capsule_mount.Packet.Build
use time_capsule_mount.Packet.Build.{Ids, packet, with_path}
use time_capsule_mount.Packet.Decode.{decode}

module _ (i : Ids) where
  abbrev Path_ : CString → Type 0
  Path_ = IsPath i.path_encoding

  -- The arguments fit their fields, and the requests are those whose packet has all of them.
  abbrev pub IsExact : Request → Type 0
  IsExact (Request.create_file flag did name) = (flag < 256) × (did < 2 ^ 32) × Path_ name
  IsExact (Request.create_dir did name) = (did < 2 ^ 32) × Path_ name
  IsExact (Request.delete did name) = (did < 2 ^ 32) × Path_ name
  IsExact (Request.move_and_rename a b from none new) = ⊥
  IsExact (Request.move_and_rename a b from (some to) new) =
      (a < 2 ^ 32) × (b < 2 ^ 32) × Path_ from × Path_ to × Path_ new
  IsExact (Request.open_fork fork did access name) = (did < 2 ^ 32) × (access < 2 ^ 16) × Path_ name
  IsExact (Request.close_fork f) = f < 2 ^ 16
  IsExact (Request.flush_fork f) = f < 2 ^ 16
  IsExact (Request.read f o c) = (f < 2 ^ 16) × (o < 2 ^ 32) × (c < 2 ^ 32)
  IsExact (Request.read_ext f o c) = (f < 2 ^ 16) × (o < 2 ^ 64) × (c < 2 ^ 64)
  IsExact (Request.write f o c d) = (f < 2 ^ 16) × (o < 2 ^ 32) × (c < 2 ^ 32)
  IsExact (Request.write_ext f o c d) = (f < 2 ^ 16) × (o < 2 ^ 64) × (c < 2 ^ 64)
  IsExact (Request.lock f o c) = (f < 2 ^ 16) × (o < 2 ^ 32) × (c < 2 ^ 32)
  IsExact (Request.unlock f o c) = (f < 2 ^ 16) × (o < 2 ^ 32) × (c < 2 ^ 32)
  IsExact (Request.lock_ext f o c) = (f < 2 ^ 16) × (o < 2 ^ 64) × (c < 2 ^ 64)
  IsExact (Request.unlock_ext f o c) = (f < 2 ^ 16) × (o < 2 ^ 64) × (c < 2 ^ 64)
  IsExact (Request.get_file_dir_parms did fb db name) =
      (did < 2 ^ 32) × (fb < 2 ^ 16) × (db < 2 ^ 16) × Path_ name
  IsExact (Request.enumerate did fb db r s name) =
      (did < 2 ^ 32) × (fb < 2 ^ 16) × (db < 2 ^ 16) × (r < 2 ^ 16) × (s < 2 ^ 16) × Path_ name
  IsExact (Request.enumerate_ext2 did fb db r s name) =
      (did < 2 ^ 32) × (fb < 2 ^ 16) × (db < 2 ^ 16) × (r < 2 ^ 16) × (s < 2 ^ 32) × Path_ name
  IsExact Request.open_dt = Unit
  IsExact (Request.get_comment did name) = (did < 2 ^ 32) × Path_ name
  IsExact (Request.get_vol_parms b) = b < 2 ^ 16
  IsExact (Request.map_id s id) = (s < 256) × (id < 2 ^ 32)
  IsExact _ = ⊥

  last_path-Sent :
      (name : CString) (s : Sent i.path_encoding name) → decode_path s.bytes ≡ some (name, [])
  last_path-Sent name s =
      subst (λ b. decode_path b ≡ some (name, [])) (append-nil s.bytes) (s.read [])

-- The id that the packet has behind its command.
abbrev pub id_of : Ids → Request → ℕ
id_of i (Request.close_fork f) = 0
id_of i (Request.flush_fork f) = 0
id_of i (Request.read f o c) = 0
id_of i (Request.read_ext f o c) = 0
id_of i (Request.write f o c d) = 0
id_of i (Request.write_ext f o c d) = 0
id_of i (Request.lock f o c) = 0
id_of i (Request.unlock f o c) = 0
id_of i (Request.lock_ext f o c) = 0
id_of i (Request.unlock_ext f o c) = 0
id_of i (Request.map_id s id) = 0
id_of i (Request.get_comment did name) = i.dtrefnum
id_of i _ = i.volid

-- The fork of the request to open one as the packet has it: 0 for the data fork, and 0x80 for any other
-- number.
abbrev pub as_read : Request → Request
as_read (Request.open_fork fork did access name) =
    Request.open_fork (if fork == 0 then 0 else 0x80) did access name
as_read r = r

-- What the server makes of the packet of a request.
abbrev pub and_decode : Option (List ℕ) → Option (ℕ × Request)
and_decode none = none
and_decode (some b) = decode b

abbrev pub received : Ids → Request → Option (ℕ × Request)
received i r = and_decode (packet i r)

pub record AreIds (i : Ids) : Type 0 where
  pub volid : i.volid < 2 ^ 16
  pub dtrefnum : i.dtrefnum < 2 ^ 16

with_path-sent :
    (i : Ids) (name p : List ℕ) (next : List ℕ → Option (List ℕ))
    → path_bytes i.path_encoding name ≡ some p
    → with_path i name next ≡ next p
with_path-sent i name p next e = rw (e, with_path) refl

moved :
    (i : Ids) (a b : ℕ) (from to new p q r : List ℕ)
    → path_bytes i.path_encoding from ≡ some p
    → path_bytes i.path_encoding to ≡ some q
    → path_bytes i.path_encoding new ≡ some r
    → packet i (Request.move_and_rename a b from (some to) new)
      ≡ some (23 ∷ 0 ∷ (htons i.volid ++ htonl a ++ (htonl b ++ (p ++ (q ++ r)))))
unfolding packet Build.afp_moveandrename
moved i a b from to new p q r e f g =
    with_path-sent i from p _ e ∙ with_path-sent i to q _ f ∙ with_path-sent i new r _ g

decode-moved :
    (i : Ids) (a b : ℕ) (from to new p q r : List ℕ)
    → i.volid < 2 ^ 16
    → a < 2 ^ 32
    → b < 2 ^ 32
    → decode_path (p ++ (q ++ r)) ≡ some (from, q ++ r)
    → decode_path (q ++ r) ≡ some (to, r)
    → decode_path r ≡ some (new, [])
    → decode (23 ∷ 0 ∷ (htons i.volid ++ htonl a ++ (htonl b ++ (p ++ (q ++ r)))))
      ≡ some (i.volid, Request.move_and_rename a b from (some to) new)
unfolding decode htons htonl ntohs_at ntohl_at
decode-moved i a b from to new p q r hv ha hb e f g = ground arith

received_move :
    (i : Ids) (a b : ℕ) (from to new : CString)
    → AreIds i
    → IsExact i (Request.move_and_rename a b from (some to) new)
    → received i (Request.move_and_rename a b from (some to) new)
      ≡ some (i.volid, Request.move_and_rename a b from (some to) new)
received_move i a b from to new ids h =
    let s = path_bytes-Sent i.path_encoding from h.2 in
    let t = path_bytes-Sent i.path_encoding to h.3 in
    let u = path_bytes-Sent i.path_encoding new h.4 in
    ap and_decode (moved i a b from to new s.bytes t.bytes u.bytes s.sent t.sent u.sent)
    ∙ decode-moved i a b from to new s.bytes t.bytes u.bytes ids.volid h.0 h.1
        (s.read (t.bytes ++ u.bytes)) (t.read u.bytes) (last_path-Sent i new u)

-- The packet that a builder makes of a request is read by the server as the same request, with the id of
-- the volume or of its desktop database; a resource fork, which may be asked for with any number but 0,
-- is read as 0x80. The requests are all but the ones that set the parameters of a file, a directory or a
-- fork, add a comment, ask for a user, or move without a destination. The numbers fit their fields, one
-- byte for the flag of a new file and the subfunction of an id, and the paths have at most 253 bytes.
pub received-packet :
    (i : Ids) (r : Request) → AreIds i → IsExact i r → received i r ≡ some (id_of i r, as_read r)
unfolding packet Build.afp_createfile Build.afp_createdir Build.afp_delete Build.afp_moveandrename
    Build.afp_openfork Build.afp_closefork Build.afp_flushfork Build.afp_read Build.afp_readext
    Build.afp_write Build.afp_writeext Build.afp_byterangelock Build.afp_byterangelockext
    Build.afp_getfiledirparms Build.afp_enumerate Build.afp_enumerateext2 Build.afp_opendt
    Build.afp_getcomment Build.afp_getvolparms Build.afp_mapid decode htons htonl hton64 ntohs_at
    ntohl_at
received-packet i (Request.create_file flag did name) ids h =
    let s = path_bytes-Sent i.path_encoding name h.2 in
    ground (arith, s.sent, last_path-Sent i name s, ids.volid, ids.dtrefnum)
received-packet i (Request.create_dir did name) ids h =
    let s = path_bytes-Sent i.path_encoding name h.1 in
    ground (arith, s.sent, last_path-Sent i name s, ids.volid, ids.dtrefnum)
received-packet i (Request.delete did name) ids h =
    let s = path_bytes-Sent i.path_encoding name h.1 in
    ground (arith, s.sent, last_path-Sent i name s, ids.volid, ids.dtrefnum)
received-packet i (Request.move_and_rename a b from none new) ids h = absurd h
received-packet i (Request.move_and_rename a b from (some to) new) ids h =
    received_move i a b from to new ids h
received-packet i (Request.open_fork fork did access name) ids h =
    let s = path_bytes-Sent i.path_encoding name h.2 in
    ground (arith, s.sent, last_path-Sent i name s, ids.volid, ids.dtrefnum)
received-packet i (Request.close_fork f) ids h = ground arith
received-packet i (Request.flush_fork f) ids h = ground arith
received-packet i (Request.read f o c) ids h = ground arith
received-packet i (Request.read_ext f o c) ids h = ground arith
received-packet i (Request.write f o c d) ids h = ground arith
received-packet i (Request.write_ext f o c d) ids h = ground arith
received-packet i (Request.lock f o c) ids h = ground arith
received-packet i (Request.unlock f o c) ids h = ground arith
received-packet i (Request.lock_ext f o c) ids h = ground arith
received-packet i (Request.unlock_ext f o c) ids h = ground arith
received-packet i (Request.get_file_dir_parms did fb db name) ids h =
    let s = path_bytes-Sent i.path_encoding name h.3 in
    ground (arith, s.sent, last_path-Sent i name s, ids.volid, ids.dtrefnum)
received-packet i (Request.set_file_dir_parms did name b fp) ids h = absurd h
received-packet i (Request.set_dir_parms did name b fp) ids h = absurd h
received-packet i (Request.set_file_parms did name b fp) ids h = absurd h
received-packet i (Request.enumerate did fb db r s name) ids h =
    let sent = path_bytes-Sent i.path_encoding name h.5 in
    ground (arith, sent.sent, last_path-Sent i name sent, ids.volid, ids.dtrefnum)
received-packet i (Request.enumerate_ext2 did fb db r s name) ids h =
    let sent = path_bytes-Sent i.path_encoding name h.5 in
    ground (arith, sent.sent, last_path-Sent i name sent, ids.volid, ids.dtrefnum)
received-packet i Request.open_dt ids h = ground (arith, ids.volid)
received-packet i (Request.get_comment did name) ids h =
    let s = path_bytes-Sent i.path_encoding name h.1 in
    ground (arith, s.sent, last_path-Sent i name s, ids.volid, ids.dtrefnum)
received-packet i (Request.add_comment did name c) ids h = absurd h
received-packet i (Request.set_fork_parms f b l) ids h = absurd h
received-packet i (Request.get_vol_parms b) ids h = ground (arith, ids.volid)
received-packet i (Request.get_user_info b) ids h = absurd h
received-packet i (Request.map_id s id) ids h = ground arith

-- For a bitmap with an extended length, the eight bytes of the length that afp_setforkparms sends are
-- 2^32 times the length, where this fits four bytes; for any other bitmap the four bytes are the
-- length.
pub afp_setforkparms-length :
    (forkid bitmap len : ℕ)
    → len < 2 ^ 32
    → let extended = has bitmap (Bits.ext_data_fork_len_bit + Bits.ext_rsrc_fork_len_bit) in
      let sent = drop 6 (Build.afp_setforkparms forkid bitmap len) in
      (if extended then ntoh64 sent else ntohl_at sent 0) ≡ (if extended then len * 2 ^ 32 else len)
unfolding Build.afp_setforkparms htons htonl ntoh64 ntohl_at
afp_setforkparms-length forkid bitmap len h = ground arith
