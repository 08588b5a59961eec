-- ===== src/Volume/Mapping.antt =====
-- The mapping of users that afp_detect_mapping of lib/users.c settles on.
use time_capsule_mount.Prelude.{
  List, Bool, true, false, not, ◌&&◌, ◌==◌, str_eq, if◌then◌else◌, ℕ, ◌≡◌, ◌⊎◌, inl, inr, refl, ◌∷◌,
  pos, is_set, arith, Bool-cases,
}
use time_capsule_mount.Afp.Request.{Request, get_user_info, map_id}
use time_capsule_mount.Afp.Session.{Session, M, get, put, pure, ◌>>=◌, exchange}
use time_capsule_mount.Volume.Users.{
  user_id_bit, pri_group_id_bit, user_id_to_name, user_id_to_utf8_name, mapping_unknown,
  mapping_common, mapping_loginids, translate_uidgid_to_client, compare_names, ask_user,
  afp_detect_mapping,
}

-- The mapping is by login ids; or the users are common, and then the ids of the user agree.
abbrev pub Settled : Session → Type 0
Settled s =
    (s.mapping ≡ mapping_loginids) ⊎ ((s.mapping ≡ mapping_common) × (s.server_uid ≡ s.pw_uid))

compare_names-Settled : (s : Session) → s.mapping ≡ mapping_loginids → Settled (compare_names s).1
unfolding compare_names ◌>>=◌ get put pure exchange
compare_names-Settled s e = ground arith

ask_user-Settled : (s : Session) → s.mapping ≡ mapping_loginids → Settled (ask_user s).1
unfolding ask_user ◌>>=◌ get put pure exchange
ask_user-Settled s e =
    elim (Bool-cases (is_set (s.peer (get_user_info user_id_bit ∷ s.sent)).code)) [
      | inl z ↦ rw (z, ask_user) (inl e)
      | inr z ↦ rw (z, ask_user) (compare_names-Settled _ (ground arith))
    ]

-- The requests up to the one for the name of the local id.
abbrev asks_name : Session → List Request
asks_name s =
    map_id (if s.attributes.supports_utf8_names then user_id_to_utf8_name else user_id_to_name)
      s.pw_uid
    ∷ s.sent

abbrev by_group : Session → List Request
by_group s = get_user_info pri_group_id_bit ∷ get_user_info user_id_bit ∷ s.sent

compare_names-agrees :
    (s : Session)
    → s.mapping ≡ mapping_loginids
    → (compare_names s).1.mapping ≡ (
        if (s.server_uid == s.pw_uid) && str_eq (s.peer (asks_name s)).payload s.pw_name
        then mapping_common
        else mapping_loginids)
unfolding compare_names ◌>>=◌ get put pure exchange
compare_names-agrees s e = elim (Bool-cases (s.server_uid == s.pw_uid)) [
  | inr u ↦ ground (arith, u, e)
  | inl u ↦ elim (Bool-cases (str_eq (s.peer (asks_name s)).payload s.pw_name)) [
    | inl n ↦ ground (arith, u, n)
    | inr n ↦ ground (arith, u, n, e)
  ]
]

-- The server answers with the local id of the user, and with the local name when it is asked for the
-- name of that id.
abbrev knows_user : Session → Bool
knows_user s =
    let by_user = get_user_info user_id_bit ∷ s.sent in
    let user = record s { sent = by_group s } in
    not (is_set (s.peer by_user).code)
    && (((s.peer by_user).value == s.pw_uid) && str_eq (s.peer (asks_name user)).payload s.pw_name)

-- The users agree: the server has network ids, and knows the local user.
abbrev pub agrees : Session → Bool
agrees s = not s.attributes.no_network_user_ids && knows_user s

ask_user-agrees :
    (s : Session)
    → s.mapping ≡ mapping_loginids
    → (ask_user s).1.mapping ≡ (if knows_user s then mapping_common else mapping_loginids)
unfolding ask_user ◌>>=◌ get put pure exchange
ask_user-agrees s e =
    elim (Bool-cases (is_set (s.peer (get_user_info user_id_bit ∷ s.sent)).code)) [
      | inl c ↦ rw (c, ask_user) e
      | inr c ↦ elim (Bool-cases (is_set (s.peer (by_group s)).code)) [
        | inl g ↦ rw (c, g, ask_user) (compare_names-agrees _ e)
        | inr g ↦ rw (c, g, ask_user) (compare_names-agrees _ e)
      ]
    ]

detect-agrees :
    (no_ids : Bool) (s : Session)
    → s.mapping ≡ mapping_loginids
    → ((elim no_ids as (λ x. M (Unit {0})) [ true ↦ pure tt | false ↦ ask_user ]) s).1.mapping
      ≡ (if not no_ids && knows_user s then mapping_common else mapping_loginids)
unfolding pure
detect-agrees true s e = e
detect-agrees false s e = ask_user-agrees s e

-- From an unknown mapping afp_detect_mapping comes to common users exactly where the server has network
-- ids, answers with the local id of the user, and with the local name when it is asked for the name of
-- that id; in all other cases it comes to login ids. After that an id is always translated, whatever the
-- server answered.
pub afp_detect_mapping-agrees :
    (s : Session) (uid gid : ℕ)
    → s.mapping ≡ mapping_unknown
    → let s' = (afp_detect_mapping s).1 in
      (s'.mapping ≡ (if agrees s then mapping_common else mapping_loginids))
      × Settled s'
      × ((translate_uidgid_to_client s' uid gid).0 ≡ pos 0)
unfolding afp_detect_mapping ◌>>=◌ get put pure translate_uidgid_to_client
afp_detect_mapping-agrees s uid gid e =
    let settled : Settled (afp_detect_mapping s).1 =
      elim (Bool-cases s.attributes.no_network_user_ids) [
        | inl z ↦ rw (z, e, afp_detect_mapping) (inl refl)
        | inr z ↦ rw (z, e, afp_detect_mapping) (ask_user-Settled _ refl)
      ] in
    let exact : (afp_detect_mapping s).1.mapping
        ≡ (if agrees s then mapping_common else mapping_loginids) =
      rw (e, afp_detect_mapping)
        (detect-agrees s.attributes.no_network_user_ids (record s { mapping = mapping_loginids })
          refl) in
    (exact, settled, ground (arith, settled))
