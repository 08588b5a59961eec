-- ===== src/Reply/Users.antt =====
-- The handlers of replies in lib/proto_map.c. `body` is the packet after its DSI header, whose error code
-- is given. `none` is a read behind the end of the body.
use mathlib.Core.Option
use time_capsule_mount.Prelude.{
  ℕ, ◌+◌, Option, none, some, List, CString, ℤ, pos, neg, is_set, ltb, if◌then◌else◌, length,
}
use time_capsule_mount.Dsi.Wire.{ntohs_at, ntohl_at}
use time_capsule_mount.Reply.Block.{has}
use time_capsule_mount.Reply.Pascal.{copy_from_pascal_two}

-- struct uidgid
pub record UidGid : Type 0 where
  pub uid : ℕ
  pub gid : ℕ

-- The id at an offset, in the field that is given.
abbrev id_at : List ℕ → ℕ → (ℕ → UidGid) → Option (ℤ × UidGid)
id_at body i store =
    if ltb (length body) (i + 4) then none else some (pos 0, store (ntohl_at body i))

-- 1 is kFPGetUserInfo_USER_ID, and 2 kFPGetUserInfo_PRI_GROUPID.
unfoldable pub afp_getuserinfo_reply : (error_code : ℤ) → (body : List ℕ) → Option (ℤ × UidGid)
afp_getuserinfo_reply error_code body =
    let bitmap = ntohs_at body 0 in
    if is_set error_code
    then some (neg 1, record { uid = 0; gid = 0 })
    else if has bitmap 1
    then (if has bitmap 2
        then id_at body 6 (λ gid. record { uid = ntohl_at body 2; gid = gid })
        else id_at body 2 (λ uid. record { uid = uid; gid = 0 }))
    else if has bitmap 2
    then id_at body 2 (λ gid. record { uid = 0; gid = gid })
    else some (pos 0, record { uid = 0; gid = 0 })

unfoldable pub afp_mapid_reply :
    (error_code : ℤ) → (body : List ℕ) → (name : CString) → Option (ℤ × CString)
afp_mapid_reply error_code body name =
    if is_set error_code
    then some (neg 1, name)
    else Option.map (λ r. (pos 0, r.1)) (copy_from_pascal_two name body 255)

-- The error code is not read.
unfoldable pub afp_mapname_reply : (body : List ℕ) → Option (ℤ × ℕ)
afp_mapname_reply body = if ltb (length body) 4 then none else some (pos 0, ntohl_at body 0)
