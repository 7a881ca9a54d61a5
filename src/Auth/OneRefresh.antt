-- ===== src/Auth/OneRefresh.antt =====
-- A refresh token is used once: `refresh` of `AuthService`.
use dating_backend.Prelude.{
  ℕ, ◌+◌, ◌*◌, ◌≡◌, refl, String, true, false, Option, none, some, List, [], ◌∷◌, ltb, arith,
  Bool-cases, inl, inr,
}
use dating_backend.Shared.Errors.{Failure, app_error, auth_token_invalid}
use dating_backend.Shared.Action.{Action, Result, ok, err, committed}
use dating_backend.Shared.Action.Keeps.{Keeps, Returns, committed_of_commits}
use dating_backend.Shared.Table.{lookup, insert, lookup-insert}
use dating_backend.Auth.Data.{
  AuthDb, AuthEnv, AuthState, Claims, RefreshToken, SmsStore, refresh, fresh_id,
}
use dating_backend.Auth.Codes.{send_sms, send_unless}
use dating_backend.Auth.Sessions.{
  Tokens, is_refresh, token_row, unrevoked, revoke_token, issue_tokens, spend, refresh_tokens,
  login_account, login, login_checked,
}
use dating_backend.Auth.Requests.{
  AuthRequest, sms_send, sms_login, password_login, token_refresh, log_out, serve_auth, serve_auths,
}
use dating_backend.Auth.Spent.{
  is_revoked, IsSpent, refresh-Keeps, logout-Keeps, login-Keeps, password-Keeps,
}

module _ (j : ℕ) where
  committed-IsSpent :
      {A : Type 0} (m : Action AuthDb A) (db : AuthDb)
      → Keeps (IsSpent j) m
      → IsSpent j db
      → IsSpent j (committed (m db) db)
  committed-IsSpent m db k h = committed_of_commits (IsSpent j) (m db) db (k.at db h) h

  login-IsSpent :
      (env : AuthEnv) (checked : Result SmsStore) (phone device_id : ℕ) (platform : String)
      (s : AuthState)
      → IsSpent j s.db
      → IsSpent j (login_checked env checked phone device_id platform s).1.db
  unfolding login_checked
  login-IsSpent env (err e) phone device_id platform s h = h
  login-IsSpent env (ok sms) phone device_id platform s h =
      committed-IsSpent (login_account env phone device_id platform) s.db
        (login-Keeps j env phone device_id platform) h

  sent-IsSpent :
      (env : AuthEnv) (refusal : Option Failure) (phone : ℕ) (ip : Option String) (s : AuthState)
      → IsSpent j s.db
      → IsSpent j (send_unless env refusal phone ip s).1.db
  unfolding send_unless
  sent-IsSpent env (some e) phone ip s h = h
  sent-IsSpent env none phone ip s h = h

  serve_auth-IsSpent :
      (env : AuthEnv) (r : AuthRequest) (s : AuthState)
      → IsSpent j s.db
      → IsSpent j (serve_auth env r s).db
  unfolding serve_auth send_sms login
  serve_auth-IsSpent env (sms_send phone ip) s h = sent-IsSpent env _ phone ip s h
  serve_auth-IsSpent env (sms_login phone code device_id platform) s h =
      login-IsSpent env _ phone device_id platform s h
  serve_auth-IsSpent env (password_login phone password device_id platform) s h =
      committed-IsSpent _ s.db (password-Keeps j env phone password device_id platform) h
  serve_auth-IsSpent env (token_refresh token) s h =
      committed-IsSpent _ s.db (refresh-Keeps j env token) h
  serve_auth-IsSpent env (log_out token) s h = committed-IsSpent _ s.db (logout-Keeps j env token) h

  serve_auths-IsSpent :
      (rs : List (AuthEnv × AuthRequest)) (s : AuthState)
      → IsSpent j s.db
      → IsSpent j (serve_auths rs s).db
  unfolding serve_auths
  serve_auths-IsSpent [] s h = h
  serve_auths-IsSpent ((env, r) ∷ rs) s h =
      serve_auths-IsSpent rs (serve_auth env r s) (serve_auth-IsSpent env r s h)

  unrevoked_spent :
      (o : Option RefreshToken)
      → is_revoked o ≡ true
      → unrevoked (elim o [ none ↦ none | some row ↦ some (j, row) ]) ≡ none
  unfolding unrevoked is_revoked
  unrevoked_spent none e = refl
  unrevoked_spent (some row) e = rw e refl

  -- The token of a row that was revoked is refused.
  refused_claims :
      (env : AuthEnv) (token : String) (db : AuthDb) (o : Option Claims)
      → env.decode token ≡ o
      → ((c : Claims) → o ≡ some c → c.jti ≡ some j)
      → IsSpent j db
      → refresh_tokens env token db ≡ err (app_error auth_token_invalid 401)
  unfolding refresh_tokens token_row
  refused_claims env token db none e names h = rw e refl
  refused_claims env token db (some c) e names h = elim (Bool-cases (is_refresh c.kind)) [
    | inr other ↦ rw (e, other) refl
    | inl right ↦ rw (e, right, names c refl, unrevoked_spent (lookup j db.tokens) h.spent) refl
  ]

unfoldable pub new_row : AuthEnv → ℕ → RefreshToken
new_row env user_id = record {
  user_id = user_id;
  revoked = false;
  expires_at = env.now + env.jwt_refresh_ttl_days * 86400;
}

-- What a refresh leaves: the row of the token `j` revoked, and the row of a token `n` of the user that is not.
pub record Renews (env : AuthEnv) (n j user_id : ℕ) (answer : Tokens) (db : AuthDb) : Type 0 where
  pub spends : IsSpent j db
  pub answers :
      answer.refresh_token ≡ env.encode (record { kind = refresh; jti = some n; sub = user_id })
  pub renews : lookup n db.tokens ≡ some (new_row env user_id)

live_row :
    (j : ℕ) (row : RefreshToken) (o : Option RefreshToken)
    → o ≡ some row
    → row.revoked ≡ false
    → unrevoked (elim o [ none ↦ none | some r ↦ some (j, r) ]) ≡ some (j, row)
unfolding unrevoked
live_row j row none e live = cc
live_row j row (some r) e live = ground (arith, e, live)

module _ (env : AuthEnv) (token : String) (s : AuthState) (claims : Claims) (j : ℕ)
    (row : RefreshToken) (readable : env.decode token ≡ some claims)
    (kind : is_refresh claims.kind ≡ true) (names : claims.jti ≡ some j)
    (stored : lookup j s.db.tokens ≡ some row) (live : row.revoked ≡ false)
    (in_time : ltb row.expires_at env.now ≡ false) (issued : ltb j s.db.next_id ≡ true) where
  refreshed : Returns (Renews env (s.db.next_id + 1) j claims.sub) (refresh_tokens env token s.db)
  unfolding refresh_tokens token_row spend revoke_token issue_tokens fresh_id is_revoked new_row
  refreshed =
      let spent_tokens = insert j (record row { revoked = true }) s.db.tokens in
      let fresh = new_row env claims.sub in
      rw (readable, kind, names, live_row j row (lookup j s.db.tokens) stored live, in_time)
        (record {
          spends = record {
            spent = ground (
              arith,
              issued,
              lookup-insert (s.db.next_id + 1) j fresh spent_tokens,
              lookup-insert j j (record row { revoked = true }) s.db.tokens,
            );
            issued = ground (arith, issued);
          };
          answers = refl;
          renews =
              ground
                (arith, lookup-insert (s.db.next_id + 1) (s.db.next_id + 1) fresh spent_tokens);
        })

  refreshed-IsSpent :
      (r : Result (Tokens × AuthDb))
      → Returns (Renews env (s.db.next_id + 1) j claims.sub) r
      → IsSpent j (committed r s.db)
  unfolding committed
  refreshed-IsSpent (ok (answer, db)) h = h.spends
  refreshed-IsSpent (err e) h = absurd h

  -- A refresh with a readable refresh token, whose row is neither revoked nor expired and whose number was given
  -- out, commits. It answers a new token for the same user, and stores its row, which is not revoked. And after any
  -- requests that follow, whenever the token is used again, it is refused, where what is read of it is its number.
  pub refreshes_once :
      (rs : List (AuthEnv × AuthRequest)) (later : AuthEnv)
      → ((c : Claims) → later.decode token ≡ some c → c.jti ≡ some j)
      → Returns (Renews env (s.db.next_id + 1) j claims.sub) (refresh_tokens env token s.db)
        × (refresh_tokens later token (serve_auths rs (serve_auth env (token_refresh token) s)).db
            ≡ err (app_error auth_token_invalid 401))
  unfolding serve_auth
  refreshes_once rs later same = (
    refreshed,
    refused_claims j later token _ (later.decode token) refl same
        (serve_auths-IsSpent j rs _ (refreshed-IsSpent (refresh_tokens env token s.db) refreshed)),
  )
