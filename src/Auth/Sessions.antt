-- ===== src/Auth/Sessions.antt =====
-- `_issue_tokens`, `refresh`, `logout`, `login` and `login_with_password` of `AuthService`.
use dating_backend.Prelude.{
  ℕ, ◌+◌, ◌*◌, String, Bool, true, false, Option, none, some, ◌||◌, not, ltb, if◌then◌else◌,
}
use text.Mathlib.Text.{◌==◌ as str_eq}
use dating_backend.Shared.Errors.{app_error, auth_invalid, auth_token_invalid}
use dating_backend.Shared.Action.{
  Action, Result, ok, err, pure, gets, modify, or_raise, raise_if, ◌>>=◌, ◌>>◌, committed,
}
use dating_backend.Shared.Table.{Table, lookup, insert, rows, one_or_none}
use dating_backend.Shared.Users.{UserStatus}
use dating_backend.Auth.Data.{
  Account, AuthDb, AuthEnv, AuthState, Claims, RefreshToken, SmsStore, TokenKind, access, refresh,
  fresh_id,
}
use dating_backend.Auth.Codes.{check_code}
use dating_backend.Auth.Accounts.{
  account_or_new, ensure_public_uid, has_phone, let_in, save_account, upsert_device,
}

pub record Tokens : Type 0 where
  pub access_token : String
  pub refresh_token : String
  pub expires_in : ℕ

pub record LoginAnswer : Type 0 where
  pub tokens : Tokens
  pub user_id : ℕ
  pub status : UserStatus
  pub created : Bool

unfoldable pub is_refresh : TokenKind → Bool
is_refresh refresh = true
is_refresh _ = false

-- The row of a token id.
unfoldable pub token_row : Option ℕ → Table RefreshToken → Option (ℕ × RefreshToken)
token_row none t = none
token_row (some jti) t = elim (lookup jti t) [ none ↦ none | some row ↦ some (jti, row) ]

unfoldable pub unrevoked : Option (ℕ × RefreshToken) → Option (ℕ × RefreshToken)
unrevoked none = none
unrevoked (some r) = if r.1.revoked then none else some r

unfoldable pub revoke_token : Option (ℕ × RefreshToken) → Action AuthDb (Unit {0})
revoke_token none = pure tt
revoke_token (some r) =
    modify (λ db. record db { tokens = insert r.0 (record r.1 { revoked = true }) db.tokens })

module _ (env : AuthEnv) where
  -- `_issue_tokens`
  unfoldable pub issue_tokens : ℕ → Action AuthDb Tokens
  issue_tokens user_id = do
    access_id ← fresh_id
    jti ← fresh_id
    modify (λ db. record db {
      tokens =
          insert jti
            (record {
              user_id = user_id;
              revoked = false;
              expires_at = env.now + env.jwt_refresh_ttl_days * 86400;
            })
            db.tokens;
    })
    pure (record {
      access_token = env.encode (record { kind = access; jti = some access_id; sub = user_id });
      refresh_token = env.encode (record { kind = refresh; jti = some jti; sub = user_id });
      expires_in = env.jwt_access_ttl_minutes * 60;
    })

  unfoldable pub spend : Claims → ℕ × RefreshToken → Action AuthDb Tokens
  unfolding issue_tokens revoke_token
  spend claims r = do
    raise_if (ltb r.1.expires_at env.now) (app_error auth_token_invalid 401)
    revoke_token (some r)
    issue_tokens claims.sub

  unfoldable pub refresh_tokens : String → Action AuthDb Tokens
  unfolding spend token_row unrevoked
  refresh_tokens token = do
    claims ← or_raise (env.decode token) (app_error auth_token_invalid 401)
    raise_if (not (is_refresh claims.kind)) (app_error auth_token_invalid 401)
    found ← gets (λ db. token_row claims.jti db.tokens)
    r ← or_raise (unrevoked found) (app_error auth_token_invalid 401)
    spend claims r

  -- The token id that a logout names, if it can be read.
  unfoldable pub claimed_jti : Option String → Option ℕ
  claimed_jti none = none
  claimed_jti (some token) =
      if str_eq token "" then none else elim (env.decode token) [ none ↦ none | some c ↦ c.jti ]

  unfoldable pub logout : Option String → Action AuthDb (Unit {0})
  unfolding claimed_jti token_row revoke_token
  logout token = gets (λ db. token_row (claimed_jti token) db.tokens) >>= revoke_token

  unfoldable pub start_session : Account → ℕ → String → Bool → Action AuthDb LoginAnswer
  unfolding issue_tokens upsert_device
  start_session a device_id platform created = do
    upsert_device env.now a.id device_id platform
    tokens ← issue_tokens a.id
    pure (record { tokens = tokens; user_id = a.id; status = a.status; created = created })

  -- `login`, after the code was checked.
  unfoldable pub login_account : ℕ → ℕ → String → Action AuthDb LoginAnswer
  unfolding account_or_new save_account start_session
  login_account phone device_id platform = do
    hits ← gets (λ db. rows (has_phone phone) db.accounts)
    found ← one_or_none hits
    r ← account_or_new phone found
    save_account (record r.0 { last_active_at = some env.now })
    start_session r.0 device_id platform r.1

  unfoldable pub login_checked :
      Result SmsStore → ℕ → ℕ → String → AuthState → Result LoginAnswer × AuthState
  unfolding login_account
  login_checked (err e) phone device_id platform s = (err e, s)
  login_checked (ok sms) phone device_id platform s =
      let r = login_account phone device_id platform s.db in
      (elim r [ ok (a, _) ↦ ok a | err e ↦ err e ], record s { db = committed r s.db; sms = sms })

  unfoldable pub login : ℕ → String → ℕ → String → AuthState → Result LoginAnswer × AuthState
  unfolding check_code login_checked
  login phone code device_id platform s =
      login_checked (check_code env phone code s.sms) phone device_id platform s

  unfoldable pub login_with_password : ℕ → String → ℕ → String → Action AuthDb LoginAnswer
  unfolding ensure_public_uid let_in start_session
  login_with_password phone password device_id platform = do
    raise_if (ltb (env.phone_length phone) 11 || ltb (env.text_length password) 8)
        (app_error auth_invalid 401)
    hits ← gets (λ db. rows (has_phone phone) db.accounts)
    found ← one_or_none hits
    a ← or_raise found (app_error auth_invalid 401)
    raise_if (not (env.verify_password password a.password_hash)) (app_error auth_invalid 401)
    let_in a
    b ← ensure_public_uid env (record a { last_active_at = some env.now })
    start_session b device_id platform false
