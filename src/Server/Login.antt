-- ===== src/Server/Login.antt =====
-- The end of a login: afp_server_login of lib/afp.c, from what afp_dologin returned on.
use time_capsule_mount.Prelude.{Bool, false, List, [], ◌∷◌, ℤ, pos, neg, if◌then◌else◌}
use time_capsule_mount.Afp.Codes.{
  no_err, auth_continue, bad_uam, bad_vers_num, call_not_supported, misc_err, no_server,
  pwd_expired_err, pwd_needs_change_err, server_going_down, user_not_auth,
}
use time_capsule_mount.Volume.Control.{switch}

-- The lines that are written into mesg.
pub data Notice : Type 0 where
  no_valid_uam method_unsupported uam_unknown version_unsupported already_logged_in not_responding
        password_needs_changing going_down failed unknown_error :
      Notice

-- The session tokens that are asked for: kLoginWithTimeAndID and kReconnWithTimeAndID.
pub data Token : Type 0 where
  login_with_time_and_id reconn_with_time_and_id : Token

pub record Login : Type 0 where
  pub supports_reconnect : Bool
  pub need_resume : Bool
  -- the requests afp_getsessiontoken, newest first
  pub tokens : List Token

-- What the switch does: it returns 1 with these lines, or goes on with them.
pub data Verdict : Type 0 where
  stop go_on : List Notice → Verdict

unfoldable pub verdict : ℤ → Verdict
verdict rc =
    switch rc
      ((neg 1, Verdict.stop (no_valid_uam ∷ []))
        ∷ (auth_continue, Verdict.stop (method_unsupported ∷ []))
        ∷ (bad_uam, Verdict.stop (uam_unknown ∷ []))
        ∷ (bad_vers_num, Verdict.go_on (version_unsupported ∷ already_logged_in ∷ []))
        ∷ (call_not_supported, Verdict.go_on (already_logged_in ∷ []))
        ∷ (misc_err, Verdict.go_on (already_logged_in ∷ []))
        ∷ (no_server, Verdict.stop (not_responding ∷ []))
        ∷ (pwd_expired_err, Verdict.stop (password_needs_changing ∷ []))
        ∷ (pwd_needs_change_err, Verdict.stop (password_needs_changing ∷ []))
        ∷ (server_going_down, Verdict.stop (going_down ∷ []))
        ∷ (user_not_auth, Verdict.stop (failed ∷ []))
        ∷ (no_err, Verdict.go_on [])
        ∷ [])
      (Verdict.stop (unknown_error ∷ []))

-- resume_token() and setup_token(), whose results are ignored.
unfoldable pub get_token : Login → Login
get_token l =
    if l.supports_reconnect
    then (if l.need_resume
        then record l { need_resume = false; tokens = reconn_with_time_and_id ∷ l.tokens }
        else record l { tokens = login_with_time_and_id ∷ l.tokens })
    else l

unfoldable pub after_verdict : Verdict → Login → ℤ × Login × List Notice
unfolding get_token
after_verdict (Verdict.stop lines) l = (pos 1, l, lines)
after_verdict (Verdict.go_on lines) l = (pos 0, get_token l, lines)

unfoldable pub afp_server_login : ℤ → Login → ℤ × Login × List Notice
unfolding verdict after_verdict
afp_server_login rc l = after_verdict (verdict rc) l
