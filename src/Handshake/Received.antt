-- ===== src/Handshake/Received.antt =====
-- What a server reads in the packets of Handshake.Requests, by the layout of the AFP functions. It is
-- written from the layout, and uses no builder. All numbers are in network byte
-- order.
use time_capsule_mount.Prelude.{
  ℕ, ◌||◌, Option, none, some, List, [], ◌∷◌, CString, ◌==◌, leb, if◌then◌else◌, length, take, drop,
}
use time_capsule_mount.Dsi.Wire.{ntohs_at, ntohl_at}

pub data Ask : Type 0 where
  login : (av_name ua_name : CString) → (userauthinfo : List ℕ) → Ask
  login_cont : (id : ℕ) → (userauthinfo : List ℕ) → Ask
  change_password : (ua_name : CString) → (userauthinfo : List ℕ) → Ask
  logout get_srvr_parms zzzzz : Ask
  get_srvr_msg : (messagetype bitmap : ℕ) → Ask
  -- the types 3 and 4, 5, and 0, 6 and 7
  timed_token : (kind timestamp : ℕ) → (token : List ℕ) → Ask
  plain_token : (token : List ℕ) → Ask
  no_token : (kind : ℕ) → Ask
  disconnect_old_session : (kind : ℕ) → (token : List ℕ) → Ask

-- A Pascal string, and what follows it.
unfoldable pub decode_pascal : List ℕ → Option (CString × List ℕ)
decode_pascal [] = none
decode_pascal (n ∷ xs) = if leb n (length xs) then some (take n xs, drop n xs) else none

unfoldable pub decode_login : List ℕ → Option Ask
unfolding decode_pascal
decode_login b = elim (decode_pascal b) [
  | none ↦ none
  | some (av_name, b) ↦ elim (decode_pascal b) [
    | none ↦ none
    | some (ua_name, userauthinfo) ↦ some (Ask.login av_name ua_name userauthinfo)
  ]
]

-- `b` is what follows the command.
unfoldable pub decode_ask : (command : ℕ) → (b : List ℕ) → Option Ask
unfolding decode_pascal decode_login
decode_ask command b =
    let kind = ntohs_at b 1 in
    let token_len = ntohl_at b 3 in
    let timestamp = ntohl_at b 7 in
    if command == 16
    then some Ask.get_srvr_parms
    else if command == 18
    then decode_login b
    else if command == 19
    then some (Ask.login_cont (ntohs_at b 1) (drop 3 b))
    else if command == 20
    then some Ask.logout
    else if command == 36
    then elim (decode_pascal (drop 1 b)) [
      | none ↦ none
      | some (ua_name, userauthinfo) ↦ some (Ask.change_password ua_name userauthinfo)
    ]
    else if command == 38
    then some (Ask.get_srvr_msg (ntohs_at b 1) (ntohs_at b 3))
    else if command == 64
    then (if kind == 3 || kind == 4
        then some (Ask.timed_token kind timestamp (take token_len (drop 11 b)))
        else (if kind == 5
            then some (Ask.plain_token (take token_len (drop 7 b)))
            else some (Ask.no_token kind)))
    else if command == 65
    then some (Ask.disconnect_old_session kind (take token_len (drop 7 b)))
    else if command == 122
    then some Ask.zzzzz
    else none

unfoldable pub received : Option (List ℕ) → Option Ask
unfolding decode_ask
received none = none
received (some []) = none
received (some (command ∷ b)) = decode_ask command b
