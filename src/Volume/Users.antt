-- ===== src/Volume/Users.antt =====
-- How user and group ids are mapped: lib/users.c.
use time_capsule_mount.Prelude.{ℕ, true, false, str_eq, ℤ, pos, neg, is_set, ◌==◌, if◌then◌else◌}
use time_capsule_mount.Afp.Request.{get_user_info, map_id}
use time_capsule_mount.Afp.Session.{Session, M, get, put, pure, ◌>>=◌, ◌>>◌, exchange}

-- The values of `mapping`: include/afpfs-ng/map_def.h
abbrev pub mapping_unknown : ℕ
mapping_unknown = 0

abbrev pub mapping_common : ℕ
mapping_common = 1

abbrev pub mapping_loginids : ℕ
mapping_loginids = 2

-- kFPGetUserInfo_USER_ID and kFPGetUserInfo_PRI_GROUPID, kUserIDToName and kUserIDToUTF8Name
abbrev pub user_id_bit : ℕ
user_id_bit = 1

abbrev pub pri_group_id_bit : ℕ
pri_group_id_bit = 2

abbrev pub user_id_to_name : ℕ
user_id_to_name = 1

abbrev pub user_id_to_utf8_name : ℕ
user_id_to_utf8_name = 3

-- The return value, and the ids that the two pointers then point to.
abbrev pub Translated : Type 0
Translated = ℤ × ℕ × ℕ

abbrev translate : Session → (uid gid : ℕ) → (uid' gid' : ℕ) → Translated
translate s uid gid uid' gid' =
    if s.mapping == mapping_common
    then (pos 0, uid, gid)
    else (if s.mapping == mapping_loginids then (pos 0, uid', gid') else (neg 1, uid, gid))

unfoldable pub translate_uidgid_to_server : Session → (newuid newgid : ℕ) → Translated
translate_uidgid_to_server s newuid newgid = translate s newuid newgid s.server_uid s.server_gid

unfoldable pub translate_uidgid_to_client : Session → (newuid newgid : ℕ) → Translated
translate_uidgid_to_client s newuid newgid = translate s newuid newgid s.pw_uid s.pw_gid

-- Steps 3 to 5 of afp_detect_mapping. The name is what the reply to FPMapID left in it.
unfoldable pub compare_names : M (Unit {0})
compare_names = do
  s ← get
  elim (s.server_uid == s.pw_uid) [
    | false ↦ pure tt
    | true ↦ do
      r ← exchange (
          map_id
            (if s.attributes.supports_utf8_names then user_id_to_utf8_name else user_id_to_name)
            s.pw_uid)
      s' ← get
      put (if str_eq r.payload s.pw_name then record s' { mapping = mapping_common } else s')
  ]

-- Step 2: what the server says of the user. The user id decides whether the rest is done at all.
unfoldable pub ask_user : M (Unit {0})
ask_user = do
  r ← exchange (get_user_info user_id_bit)
  elim (is_set r.code) [
    | true ↦ pure tt
    | false ↦ do
      s ← get
      put (record s { server_uid = r.value })
      g ← exchange (get_user_info pri_group_id_bit)
      s' ← get
      put (if is_set g.code then s' else record s' { server_gid = g.value })
      compare_names
  ]

-- It always returns 0. A failed FPGetUserInfo stores nothing.
unfoldable pub afp_detect_mapping : M (Unit {0})
afp_detect_mapping = do
  s ← get
  elim (s.mapping == mapping_unknown) [
    | false ↦ pure tt
    | true ↦ do
      put (record s { mapping = mapping_loginids })
      elim s.attributes.no_network_user_ids [ true ↦ pure tt | false ↦ ask_user ]
  ]
