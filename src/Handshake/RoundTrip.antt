-- ===== src/Handshake/RoundTrip.antt =====
-- The packets of lib/proto_login.c, lib/proto_session.c and lib/proto_server.c are read by the server as
-- the requests that were made, but for the time of a token.
use time_capsule_mount.Prelude.{
  ℕ, ◌+◌, ◌*◌, ◌/◌, ◌%◌, ◌^◌, ◌<◌, ◌≤◌, ◌≡◌, refl, true, false, ◌||◌, Option, some, List, [], ◌∷◌,
  ◌++◌, CString, ◌==◌, ltb, if◌then◌else◌, length, take, take_all, take-append, drop-append,
  append_assoc, ap, ◌∙◌, arith, sym, subst, ◌⊎◌, inl, inr,
}
use time_capsule_mount.Dsi.Wire.{ntohs_at, ntohl_at, htons, htonl}
use time_capsule_mount.Reply.Pascal.{copy_to_pascal, length-append-le}
use time_capsule_mount.Handshake.Requests.{
  afp_login, afp_logincont, afp_changepassword, afp_logout, afp_getsrvrparms, afp_getsrvrmsg,
  afp_zzzzz, stored, token_max_len, afp_getsessiontoken, afp_disconnectoldsession,
}
use time_capsule_mount.Handshake.Received.{Ask, decode_login, decode_pascal, received}

-- The packet of a request.
unfoldable pub send : (garbage : ℕ) → Ask → Option (List ℕ)
send garbage (Ask.login av_name ua_name info) = some (afp_login av_name ua_name info)
send garbage (Ask.login_cont id info) = some (afp_logincont id info)
send garbage (Ask.change_password ua_name info) = some (afp_changepassword garbage ua_name info)
send garbage Ask.logout = some afp_logout
send garbage Ask.get_srvr_parms = some afp_getsrvrparms
send garbage Ask.zzzzz = some afp_zzzzz
send garbage (Ask.get_srvr_msg messagetype bitmap) =
    some (afp_getsrvrmsg messagetype (if bitmap == 1 then 0 else 1))
send garbage (Ask.timed_token kind timestamp token) = afp_getsessiontoken kind timestamp token
send garbage (Ask.plain_token token) = afp_getsessiontoken 5 0 token
send garbage (Ask.no_token kind) = afp_getsessiontoken kind 0 []
send garbage (Ask.disconnect_old_session kind token) = afp_disconnectoldsession garbage kind token

-- The arguments fit the fields that they are sent in.
abbrev pub IsSendable : Ask → Type 0
IsSendable (Ask.login av_name ua_name info) = (length av_name < 256) × (length ua_name < 256)
IsSendable (Ask.login_cont id info) = id < 2 ^ 16
IsSendable (Ask.change_password ua_name info) = length ua_name < 256
IsSendable Ask.logout = Unit
IsSendable Ask.get_srvr_parms = Unit
IsSendable Ask.zzzzz = Unit
IsSendable (Ask.get_srvr_msg messagetype bitmap) =
    (messagetype < 2 ^ 16) × (bitmap == 1 || bitmap == 3) ≡ true
IsSendable (Ask.timed_token kind timestamp token) =
    ((kind ≡ 3) ⊎ (kind ≡ 4)) × (timestamp < 2 ^ 32) × (length token ≤ 256)
IsSendable (Ask.plain_token token) = length token ≤ 256
IsSendable (Ask.no_token kind) = (kind ≡ 0) ⊎ ((kind ≡ 6) ⊎ (kind ≡ 7))
IsSendable (Ask.disconnect_old_session kind token) = (kind < 2 ^ 16) × (length token ≤ 256)

pub decode_pascal-copy_to_pascal :
    (s : CString) (rest : List ℕ)
    → length s < 256
    → decode_pascal (copy_to_pascal s ++ rest) ≡ some (s, rest)
unfolding decode_pascal copy_to_pascal
decode_pascal-copy_to_pascal s rest h =
    let whole : length s % 256 ≡ length s = omega arith in
    let all : take (length s) s ≡ s = take_all (length s) s (omega arith) in
    rw (whole, all, take-append s rest, drop-append s rest)
      (ground (arith, length-append-le s rest))

-- The token behind its length, which stands behind the kind.
token_length :
    (a b c n : ℕ) (rest : List ℕ) → n < 2 ^ 32 → ntohl_at (a ∷ b ∷ c ∷ (htonl n ++ rest)) 3 ≡ n
unfolding ntohl_at htonl
token_length a b c n rest h = omega (arith, h)

-- The number whose four bytes are those of n, in the reverse order.
abbrev pub reversed : ℕ → ℕ
reversed n = n % 256 * 2 ^ 24 + n / 256 % 256 * 2 ^ 16 + n / 2 ^ 16 % 256 * 256 + n / 2 ^ 24 % 256

-- What the server reads in the packet of a request: the time with its bytes reversed, and all else as it is.
abbrev pub as_read : Ask → Ask
as_read (Ask.timed_token kind timestamp token) = Ask.timed_token kind (reversed timestamp) token
as_read a = a

time_at :
    (a b c d e f g n : ℕ) (rest : List ℕ)
    → ntohl_at (a ∷ b ∷ c ∷ d ∷ e ∷ f ∷ g ∷ (stored n ++ rest)) 7 ≡ reversed n
unfolding ntohl_at
time_at a b c d e f g n rest = omega arith

-- A request with a time, of a type k.
module _ (timestamp : ℕ) (token : List ℕ) (l : length token ≤ 256) where
  abbrev IsRead : ℕ → Type 0
  IsRead k =
      received (afp_getsessiontoken k timestamp token)
      ≡ some (Ask.timed_token k (reversed timestamp) token)

  timed :
      (k n t : ℕ)
      → n ≡ length token
      → t ≡ reversed timestamp
      → some (Ask.timed_token k t (take n token))
        ≡ some (Ask.timed_token k (reversed timestamp) token)
  timed k n t e time =
      let all : take n token ≡ token = take_all n token (omega arith) in
      ap (λ b. some (Ask.timed_token k t b)) all ∙ ap (λ m. some (Ask.timed_token k m token)) time

  short : ltb token_max_len (length token) ≡ false
  short = ground arith

  received_timed : (k : ℕ) → (k ≡ 3) ⊎ (k ≡ 4) → IsRead k
  unfolding received afp_getsessiontoken htons htonl ntohs_at ntohl_at
  received_timed k (inl e) = subst IsRead (sym e) (
      rw short (
        timed 3 _ _ (token_length 0 0 3 (length token) (stored timestamp ++ token) (omega arith))
          (omega arith)))
  received_timed k (inr e) = subst IsRead (sym e) (
      rw short (
        timed 4 _ _ (token_length 0 0 4 (length token) (stored timestamp ++ token) (omega arith))
          (omega arith)))

decode_login-afp_login :
    (av_name ua_name : CString) (info : List ℕ)
    → length av_name < 256
    → length ua_name < 256
    → decode_login (copy_to_pascal av_name ++ copy_to_pascal ua_name ++ info)
      ≡ some (Ask.login av_name ua_name info)
unfolding decode_login
decode_login-afp_login av_name ua_name info a u =
    ap decode_login (append_assoc (copy_to_pascal av_name) (copy_to_pascal ua_name) info)
    ∙ rw (decode_pascal-copy_to_pascal av_name (copy_to_pascal ua_name ++ info) a, decode_login)
        (rw (decode_pascal-copy_to_pascal ua_name info u) refl)

received_none :
    (k : ℕ)
    → (k ≡ 0) ⊎ ((k ≡ 6) ⊎ (k ≡ 7))
    → received (afp_getsessiontoken k 0 []) ≡ some (Ask.no_token k)
unfolding received afp_getsessiontoken htons htonl ntohs_at
received_none k (inl e) =
    subst (λ k. received (afp_getsessiontoken k 0 []) ≡ some (Ask.no_token k)) (sym e) refl
received_none k (inr (inl e)) =
    subst (λ k. received (afp_getsessiontoken k 0 []) ≡ some (Ask.no_token k)) (sym e) refl
received_none k (inr (inr e)) =
    subst (λ k. received (afp_getsessiontoken k 0 []) ≡ some (Ask.no_token k)) (sym e) refl

received_disconnect :
    (garbage kind : ℕ) (token : List ℕ)
    → kind < 2 ^ 16
    → length token ≤ 256
    → received (afp_disconnectoldsession garbage kind token)
      ≡ some (Ask.disconnect_old_session kind token)
unfolding received afp_disconnectoldsession htons htonl ntohs_at
received_disconnect garbage kind token k l =
    let short : ltb 256 (length token) ≡ false = ground arith in
    let n =
      token_length garbage (kind / 256 % 256) (kind % 256) (length token) token (omega arith) in
    let kind' : kind / 256 % 256 * 256 + kind % 256 ≡ kind = omega arith in
    let all : take (length token) token ≡ token = take_all (length token) token (omega arith) in
    rw short (
      ap
        (λ m.
          some (Ask.disconnect_old_session (kind / 256 % 256 * 256 + kind % 256) (take m token)))
        n
      ∙ ap (λ b. some (Ask.disconnect_old_session (kind / 256 % 256 * 256 + kind % 256) b)) all
      ∙ ap (λ k. some (Ask.disconnect_old_session k token)) kind')

-- The server reads every request of a session as it was made, whatever malloc left in the bytes that are
-- not written, but for the time in the request of a token of the types 3 and 4: it is sent in the byte
-- order of the machine, and on a little-endian one the server reads it with its four bytes reversed. The
-- arguments fit their fields, and a token has at most 256 bytes.
pub received-send :
    (garbage : ℕ) (a : Ask) → IsSendable a → received (send garbage a) ≡ some (as_read a)
unfolding received send htons htonl ntohs_at ntohl_at afp_login afp_logincont afp_changepassword
    afp_logout afp_getsrvrparms afp_getsrvrmsg afp_zzzzz afp_getsessiontoken
    afp_disconnectoldsession
received-send garbage (Ask.login av_name ua_name info) h =
    decode_login-afp_login av_name ua_name info h.0 h.1
received-send garbage (Ask.login_cont id info) h = ground arith
received-send garbage (Ask.change_password ua_name info) h =
    rw (decode_pascal-copy_to_pascal ua_name info h) refl
received-send garbage Ask.logout h = refl
received-send garbage Ask.get_srvr_parms h = refl
received-send garbage Ask.zzzzz h = refl
received-send garbage (Ask.get_srvr_msg messagetype bitmap) h = ground arith
received-send garbage (Ask.timed_token kind timestamp token) (k, t, l) =
    received_timed timestamp token l kind k
received-send garbage (Ask.plain_token token) h =
    let all : take (length token) token ≡ token = take_all (length token) token (omega arith) in
    rw (short 0 token h) (
      ap (λ n. some (Ask.plain_token (take n token)))
        (token_length 0 0 5 (length token) token (omega (arith, h)))
      ∙ ap (λ t. some (Ask.plain_token t)) all)
received-send garbage (Ask.no_token kind) h = received_none kind h
received-send garbage (Ask.disconnect_old_session kind token) (k, l) =
    received_disconnect garbage kind token k l
