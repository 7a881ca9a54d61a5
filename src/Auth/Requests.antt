-- ===== src/Auth/Requests.antt =====
-- Requests to app/modules/auth/router.py, one after another.
use dating_backend.Prelude.{ℕ, String, Option, List, [], ◌∷◌}
use dating_backend.Shared.Action.{committed}
use dating_backend.Auth.Data.{AuthEnv, AuthState}
use dating_backend.Auth.Codes.{send_sms}
use dating_backend.Auth.Sessions.{login, login_with_password, refresh_tokens, logout}

pub data AuthRequest : Type 0 where
  sms_send : ℕ → Option String → AuthRequest
  sms_login : ℕ → String → ℕ → String → AuthRequest
  password_login : ℕ → String → ℕ → String → AuthRequest
  token_refresh : String → AuthRequest
  log_out : Option String → AuthRequest

unfoldable pub serve_auth : AuthEnv → AuthRequest → AuthState → AuthState
serve_auth env (sms_send phone ip) s = (send_sms env phone ip s).1
serve_auth env (sms_login phone code device_id platform) s =
    (login env phone code device_id platform s).1
serve_auth env (password_login phone password device_id platform) s = record s {
  db = committed (login_with_password env phone password device_id platform s.db) s.db;
}
serve_auth env (token_refresh token) s = record s {
  db = committed (refresh_tokens env token s.db) s.db;
}
serve_auth env (log_out token) s = record s { db = committed (logout env token s.db) s.db }

unfoldable pub serve_auths : List (AuthEnv × AuthRequest) → AuthState → AuthState
unfolding serve_auth
serve_auths [] s = s
serve_auths ((env, r) ∷ rs) s = serve_auths rs (serve_auth env r s)
