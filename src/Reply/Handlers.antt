-- ===== src/Reply/Handlers.antt =====
-- The handlers of the replies that store a few fields: afp_getfiledirparms_reply, afp_write_reply and
-- afp_writeext_reply of lib/proto_files.c, afp_openfork_reply and the two of byte range locks of
-- lib/proto_fork.c, afp_createdir_reply of lib/proto_directory.c, afp_opendt_reply and
-- afp_getcomment_reply of lib/proto_desktop.c. `body` is the packet after its DSI header, whose error
-- code is given; `old` is what stands where the handler stores. A result is the code that is returned
-- with what is stored then. The machine is little endian: ntohl of a field of eight bytes reads the
-- first four.
use time_capsule_mount.Prelude.{
  ℕ, not, ◌||◌, Option, none, some, List, [], ◌∷◌, ℤ, pos, neg, is_set, ◌==ℤ◌, ◌==◌, ltb, length,
  take, drop, get_or, if◌then◌else◌,
}
use Prim.Native.Nat.{min}
use time_capsule_mount.Afp.Codes.{no_err, deny_conflict}
use time_capsule_mount.Afp.Types.{FileInfo}
use time_capsule_mount.Dsi.Wire.{ntohs_at, ntohl_at}
use time_capsule_mount.Reply.Block.{ntoh64, parse_reply_block}

-- `none` is a read behind the end of the block.
unfoldable pub afp_getfiledirparms_reply :
    (error_code : ℤ) → (body : List ℕ) → FileInfo → Option (ℤ × FileInfo)
afp_getfiledirparms_reply error_code body old =
    let isdir = not (get_or body 4 0 == 0) in
    let parsed : Option (ℤ × FileInfo) =
      elim (parse_reply_block isdir (ntohs_at body 0) (ntohs_at body 2) (drop 6 body)) [
        | none ↦ none
        | some filecur ↦ some (pos 0, record filecur { isdir = isdir })
      ] in
    if is_set error_code
    then some (error_code, old)
    else (if ltb (length body) 6 then some (neg 1, old) else parsed)

unfoldable pub afp_openfork_reply : (error_code : ℤ) → (body : List ℕ) → (old : ℕ) → ℤ × ℕ
afp_openfork_reply error_code body old =
    if error_code ==ℤ no_err || error_code ==ℤ deny_conflict
    then (if ltb (length body) 4 then (neg 1, old) else (pos 0, ntohs_at body 2))
    else (pos 0, old)

unfoldable pub afp_byterangelock_reply : (error_code : ℤ) → (body : List ℕ) → ℤ × ℕ
afp_byterangelock_reply error_code body =
    (error_code, (if ltb (length body) 8 then 0 else ntohl_at body 0))

unfoldable pub afp_byterangelockext_reply : (error_code : ℤ) → (body : List ℕ) → ℤ × ℕ
afp_byterangelockext_reply error_code body =
    (error_code, (if ltb (length body) 8 then 0 else ntoh64 body))

-- The handlers of writes return 0 whatever the error code is.
unfoldable pub afp_write_reply : (body : List ℕ) → ℤ × ℕ
afp_write_reply body = (pos 0, (if ltb (length body) 8 then 0 else ntohl_at body 0))

unfoldable pub afp_writeext_reply : (body : List ℕ) → ℤ × ℕ
afp_writeext_reply body = (pos 0, (if ltb (length body) 8 then 0 else ntoh64 body))

-- *dir_p is 0 in each case.
unfoldable pub afp_createdir_reply : (error_code : ℤ) → (body : List ℕ) → ℤ × ℕ
afp_createdir_reply error_code body =
    if is_set error_code
    then (error_code, 0)
    else (if ltb (length body) 4 then (neg 1, 0) else (pos 0, 0))

unfoldable pub afp_opendt_reply : (body : List ℕ) → (old : ℕ) → ℤ × ℕ
afp_opendt_reply body old = if ltb (length body) 2 then (neg 1, old) else (pos 0, ntohs_at body 0)

-- A buffer of `maxsize` bytes for the comment. `none` is a body without the byte of its length, which
-- is read behind the end.
unfoldable pub afp_getcomment_reply : (maxsize : ℕ) → (body : List ℕ) → Option (ℤ × List ℕ)
afp_getcomment_reply maxsize [] = none
afp_getcomment_reply maxsize (commentlen ∷ data_bytes) =
    some (pos 0, take (min (min (length data_bytes) maxsize) commentlen) data_bytes)
