-- ===== src/Handshake/Requests.antt =====
-- The packets of lib/proto_login.c, lib/proto_session.c and lib/proto_server.c, after the DSI header. The
-- names of versions and methods stand in tables, and are shorter than 256 bytes. `garbage` is what
-- malloc leaves in a byte that is not written.
use time_capsule_mount.Prelude.{
  ℕ, ◌/◌, ◌%◌, ◌^◌, ◌||◌, Option, none, some, List, [], ◌∷◌, ◌++◌, CString, ◌==◌, ltb,
  if◌then◌else◌, length,
}
use time_capsule_mount.Dsi.Wire.{htons, htonl}
use time_capsule_mount.Reply.Pascal.{copy_to_pascal}

unfoldable pub afp_login : (av_name ua_name : CString) → (userauthinfo : List ℕ) → List ℕ
afp_login av_name ua_name userauthinfo =
    18 ∷ (copy_to_pascal av_name ++ copy_to_pascal ua_name ++ userauthinfo)

unfoldable pub afp_logincont : (id : ℕ) → (userauthinfo : List ℕ) → List ℕ
afp_logincont id userauthinfo = 19 ∷ 0 ∷ (htons id ++ userauthinfo)

unfoldable pub afp_changepassword :
    (garbage : ℕ) → (ua_name : CString) → (userauthinfo : List ℕ) → List ℕ
afp_changepassword garbage ua_name userauthinfo =
    36 ∷ garbage ∷ (copy_to_pascal ua_name ++ userauthinfo)

unfoldable pub afp_logout : List ℕ
afp_logout = 20 ∷ 0 ∷ []

unfoldable pub afp_getsrvrparms : List ℕ
afp_getsrvrparms = 16 ∷ []

unfoldable pub afp_getsrvrmsg : (messagetype utf8 : ℕ) → List ℕ
afp_getsrvrmsg messagetype utf8 = 38 ∷ 0 ∷ (htons messagetype ++ htons (if utf8 == 0 then 1 else 3))

unfoldable pub afp_zzzzz : List ℕ
afp_zzzzz = 122 ∷ 0 ∷ htonl 0

-- A number of four bytes as a little-endian machine stores it.
abbrev pub stored : ℕ → List ℕ
stored n = n % 256 ∷ n / 256 % 256 ∷ n / 2 ^ 16 % 256 ∷ n / 2 ^ 24 % 256 ∷ []

-- AFP_TOKEN_MAX_LEN: the buffer of the request holds a token of that many bytes.
abbrev pub token_max_len : ℕ
token_max_len = 256

-- The switch on the type: the time that is sent, and the token. `none` is a type that is refused.
unfoldable pub token_parts : (kind timestamp : ℕ) → (token : List ℕ) → Option (List ℕ × List ℕ)
token_parts kind timestamp token =
    if kind == 3 || kind == 4
    then some (stored timestamp, token)
    else if kind == 5
    then some ([], token)
    else if kind == 0 || (kind == 7 || kind == 6)
    then some ([], [])
    else none

-- `none` is a type that is refused, or a token that is longer than struct afp_token and the buffer hold.
unfoldable pub afp_getsessiontoken : (kind timestamp : ℕ) → (token : List ℕ) → Option (List ℕ)
unfolding token_parts
afp_getsessiontoken kind timestamp token = elim (token_parts kind timestamp token) [
  | none ↦ none
  | some (time, token) ↦
      if ltb token_max_len (length token)
      then none
      else some (64 ∷ 0 ∷ (htons kind ++ htonl (length token) ++ time ++ token))
]

unfoldable pub afp_disconnectoldsession : (garbage kind : ℕ) → (token : List ℕ) → Option (List ℕ)
afp_disconnectoldsession garbage kind token =
    if ltb 256 (length token)
    then none
    else some (65 ∷ garbage ∷ (htons kind ++ htonl (length token) ++ token))
