-- ===== src/Auth/Tests.antt =====
-- Concrete accounts, on which the theorems apply.
use dating_backend.Prelude.{◌≡◌, refl, true, false, none, some, List, [], ◌∷◌}
use dating_backend.Shared.Errors.{app_error, auth_token_invalid, auth_code_expired}
use dating_backend.Shared.Action.{err}
use dating_backend.Shared.Action.Keeps.{Returns}
use dating_backend.Shared.Table.{lookup}
use dating_backend.Shared.Users.{UserStatus}
use dating_backend.Auth.Data.{Account, AuthEnv, AuthState, Claims, RefreshToken, refresh, delivered}
use dating_backend.Auth.Codes.{stored_code, alive_code, is_bypass}
use dating_backend.Auth.Sessions.{is_refresh, refresh_tokens, login}
use dating_backend.Auth.Requests.{
  AuthRequest, sms_send, sms_login, token_refresh, log_out, serve_auth, serve_auths,
}
use dating_backend.Auth.OneRefresh.{Renews, refreshes_once}
use dating_backend.Auth.OneLogin.{sends_to, code_logs_in_once}

abbrev claims_five : Claims
claims_five = record { kind = refresh; jti = some 5; sub = 1 }

abbrev env : AuthEnv
env = record {
  now = 100;
  today = 1;
  decode = λ _. some claims_five;
  encode = λ _. "signed";
  verify_password = λ _ _. true;
  text_length = λ _. 8;
  phone_length = λ _. 11;
  dev_code_allowed = λ _. false;
  sms_dev_code = "000000";
  random_code = "123456";
  delivery = delivered "sent" none;
  sms_daily_limit = 5;
  sms_code_ttl_seconds = 300;
  sms_send_interval_seconds = 60;
  jwt_refresh_ttl_days = 30;
  jwt_access_ttl_minutes = 60;
  id_prefix = λ n. n;
}

abbrev row_five : RefreshToken
row_five = record { user_id = 1; revoked = false; expires_at = 1000 }

abbrev account : Account
account = record {
  id = 1;
  phone = 77;
  password_hash = none;
  public_uid = none;
  status = UserStatus.active;
  last_active_at = none;
}

abbrev signed_in : AuthState
signed_in = record {
  db = record {
    accounts = (1, account) ∷ [];
    profiles = [];
    preferences = [];
    devices = [];
    tokens = (5, row_five) ∷ [];
    next_id = 10;
  };
  sms = record { codes = (77, ("123456", 400)) ∷ []; intervals = []; daily = [] };
  logs = [];
}

abbrev others : List (AuthEnv × AuthRequest)
others = (env, log_out none) ∷ (env, sms_login 77 "1" 3 "ios") ∷ (env, sms_send 78 none) ∷ []

names_five : (c : Claims) → env.decode "t5" ≡ some c → c.jti ≡ some 5
names_five c e = cc

five_stored : lookup 5 signed_in.db.tokens ≡ some row_five
unfolding lookup
five_stored = refl

refreshes_once_example :
    Returns (Renews env 11 5 1) (refresh_tokens env "t5" signed_in.db)
    × (refresh_tokens env "t5"
          (serve_auths others (serve_auth env (token_refresh "t5") signed_in)).db
        ≡ err (app_error auth_token_invalid 401))
unfolding is_refresh
refreshes_once_example =
    refreshes_once env "t5" signed_in claims_five 5 row_five refl refl refl five_stored refl refl
      refl others env names_five

code_77 : stored_code env 77 signed_in.sms ≡ some "123456"
unfolding stored_code alive_code lookup
code_77 = refl

no_bypass : is_bypass env 77 "123456" ≡ false
unfolding is_bypass
no_bypass = refl

code_logs_in_once_example :
    (login env 77 "123456" 4 "android"
      (serve_auths others (serve_auth env (sms_login 77 "123456" 3 "ios") signed_in))).0
    ≡ err (app_error auth_code_expired 400)
unfolding sends_to
code_logs_in_once_example =
    code_logs_in_once env 77 "123456" 3 "ios" signed_in code_77 others (refl, (refl, (refl, tt)))
      env "123456" 4 "android" no_bypass
