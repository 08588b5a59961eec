-- ===== src/Handshake/Tokens.antt =====
-- afp_getsessiontoken_reply of lib/proto_session.c reads the token of a session.
use time_capsule_mount.Prelude.{
  ℕ, ◌+◌, ◌≤◌, ◌<◌, ◌≡◌, refl, List, [], ◌++◌, pos, neg, leb, if◌then◌else◌, length, take, drop,
  take_all, arith,
}
use time_capsule_mount.Dsi.Wire.{header_size, ntohl_at, htonl}
use time_capsule_mount.Handshake.Replies.{afp_getsessiontoken_reply}

-- A reply that carries a token and nothing else.
unfoldable pub write_token : List ℕ → List ℕ
write_token token = htonl (length token) ++ token

ntohl_at-write_token :
    (token : List ℕ) → length token ≤ 256 → ntohl_at (write_token token) 0 ≡ length token
unfolding ntohl_at write_token htonl
ntohl_at-write_token token h = omega (arith, h)

length-write_token : (token : List ℕ) → length (write_token token) ≡ 4 + length token
unfolding write_token htonl
length-write_token token = omega arith

drop-write_token : (token : List ℕ) → drop 4 (write_token token) ≡ token
unfolding write_token htonl
drop-write_token token = refl

-- header.length of a reply does not count the header of 16 bytes. As if it did, the handler takes a
-- reply with a token of at most 12 bytes for one without a token, and refuses any that is longer, which
-- leaves what was stored; with a length that counts the header it stores any token of at most 256
-- bytes.
pub afp_getsessiontoken_reply-write_token :
    (token old : List ℕ)
    → length token ≤ 256
    → (afp_getsessiontoken_reply (length (write_token token)) (write_token token) old
        ≡ (if leb (length token) 12 then (pos 0, []) else (neg 1, old)))
      × (0 < length token
          → afp_getsessiontoken_reply
              (header_size + length (write_token token))
              (write_token token)
              old
            ≡ (pos 0, token))
unfolding afp_getsessiontoken_reply
afp_getsessiontoken_reply-write_token token old h =
    let n = ntohl_at-write_token token h in
    let l = length-write_token token in
    let d = drop-write_token token in
    let all : take (length token) token ≡ token = take_all (length token) token (omega arith) in
    (ground (arith, n, l), λ some_part. rw (n, l, d, all) (ground arith))
