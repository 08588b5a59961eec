-- ===== src/Handshake/Replies.antt =====
-- The handlers of replies in lib/proto_server.c, lib/proto_login.c and lib/proto_session.c. `body` is the
-- packet after its DSI header. `none` is a read behind its end.
use Prim.Native.Nat.{min}
use mathlib.Core.Option
use time_capsule_mount.Prelude.{
  ℕ, zero, suc, ◌+◌, ◌-◌, ◌||◌, Option, none, some, List, [], ◌∷◌, ◌++◌, CString, ℤ, pos, neg, leb,
  ltb, if◌then◌else◌, length, take, drop,
}
use time_capsule_mount.Dsi.Wire.{ntohs_at, ntohl_at}
use time_capsule_mount.Reply.Block.{has, date_to_unix}
use time_capsule_mount.Reply.Pascal.{copy_from_pascal, copy_from_pascal_two}

-- The fields of struct afp_volume, and of struct afp_server, that afp_getsrvrparms_reply stores.
pub record Volume : Type 0 where
  pub flags : ℕ
  pub volume_name : CString
  pub volume_name_printable : CString

pub record Parms : Type 0 where
  pub connect_time : ℕ
  pub volumes : List Volume

-- AFP_VOLUME_NAME_LEN
abbrev pub volume_name_len : ℕ
volume_name_len = 33

-- The version of the server, and convert_utf8dec_to_utf8pre, which works on the tables of lib/unicode.c.
module _ (av_number : ℕ) (to_utf8pre : CString → CString) where
  abbrev pub announced : (flags : ℕ) → CString → Volume
  announced flags name = record {
    flags = flags;
    volume_name = name;
    volume_name_printable = if ltb av_number 30 then name else to_utf8pre name;
  }

  -- The loop over the volumes, for `count` of them from p on.
  unfoldable pub parse_volumes : (count : ℕ) → (p : List ℕ) → Option (List Volume)
  parse_volumes zero p = some []
  parse_volumes (suc count) [] = none
  parse_volumes (suc count) (flags ∷ p) = elim (copy_from_pascal p volume_name_len) [
    | none ↦ none
    | some (len, name) ↦
        Option.map (◌∷◌ (announced flags name)) (parse_volumes count (drop (len + 1) p))
  ]

  unfoldable pub afp_getsrvrparms_reply : (body : List ℕ) → (old : Parms) → Option (ℤ × Parms)
  unfolding parse_volumes
  afp_getsrvrparms_reply (t0 ∷ t1 ∷ t2 ∷ t3 ∷ numvolumes ∷ p) old =
      Option.map
        (λ volumes. (
          pos 0,
          record {
            connect_time = date_to_unix (ntohl_at (t0 ∷ t1 ∷ t2 ∷ t3 ∷ []) 0);
            volumes = volumes;
          },
        ))
        (parse_volumes numvolumes p)
  afp_getsrvrparms_reply _ old = some (neg 1, old)

-- The message that is stored in `mesg`.
unfoldable pub afp_getsrvrmsg_reply : (body : List ℕ) → (mesg : CString) → Option (ℤ × CString)
afp_getsrvrmsg_reply body mesg =
    let src = drop 4 body in
    if ltb (length body) 4
    then some (neg 1, mesg)
    else Option.map (λ r. (pos 0, r.1))
        (if has (ntohs_at body 2) 2
          then copy_from_pascal_two mesg src 200
          else copy_from_pascal src 200)

-- What is in the buffer of the authentication method, of `maxsize` bytes, where there is one.
unfoldable pub afp_login_reply : (body : List ℕ) → (maxsize : ℕ) → (rx : List ℕ) → List ℕ
afp_login_reply body maxsize rx =
    let size = min (length body) maxsize in take size body ++ drop size rx

unfoldable pub afp_changepassword_reply : (body : List ℕ) → (maxsize : ℕ) → (rx : List ℕ) → List ℕ
afp_changepassword_reply body maxsize rx =
    let size = min (length body) maxsize in take size body ++ drop size rx

-- `len` is header.length, and `token` is what is stored before.
unfoldable pub afp_getsessiontoken_reply :
    (len : ℕ) → (body : List ℕ) → (token : List ℕ) → ℤ × List ℕ
afp_getsessiontoken_reply len body token =
    let token_len = ntohl_at body 0 in
    if leb len 16
    then (pos 0, [])
    else (if ltb 256 token_len || ltb (len - 16) token_len
        then (neg 1, token)
        else (pos 0, take token_len (drop 4 body)))
