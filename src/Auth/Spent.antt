-- ===== src/Auth/Spent.antt =====
-- A refresh token is used once.
use dating_backend.Prelude.{
  ℕ, ◌+◌, ◌*◌, ◌≡◌, String, Bool, true, false, Option, none, some, List, [], ◌∷◌, ltb, arith,
}
use dating_backend.Shared.Action.{modify}
use dating_backend.Shared.Action.Keeps.{Keeps, Keeps-pure, keeps_rules}
use dating_backend.Shared.Table.{Table, lookup, lookup-insert, one_or_none}
use dating_backend.Shared.Pairs.{PairTable}
use dating_backend.Auth.Data.{Account, AuthDb, AuthEnv, Claims, Device, RefreshToken, fresh_id}
use dating_backend.Auth.Accounts.{
  account_or_new, ensure_public_uid, let_in, save_account, upsert_device,
}
use dating_backend.Auth.Sessions.{
  revoke_token, issue_tokens, spend, refresh_tokens, logout, start_session, login_account,
  login_with_password,
}

unfoldable pub is_revoked : Option RefreshToken → Bool
is_revoked none = false
is_revoked (some row) = row.revoked

pub record IsSpent (j : ℕ) (db : AuthDb) : Type 0 where
  pub spent : is_revoked (lookup j db.tokens) ≡ true
  pub issued : ltb j db.next_id ≡ true

module _ (j : ℕ) where
  fresh-Keeps : Keeps (IsSpent j) fresh_id
  unfolding fresh_id
  fresh-Keeps = record {
    at = λ db h. record { spent = h.spent; issued = ground (arith, h.issued) };
  }

  accounts-Keeps :
      (f : AuthDb → Table Account)
      → Keeps (IsSpent j) (modify (λ db. record db { accounts = f db }))
  accounts-Keeps f = record { at = λ db h. record { spent = h.spent; issued = h.issued } }

  profiles-Keeps :
      (f g : AuthDb → Table (Unit {0}))
      → Keeps (IsSpent j) (modify (λ db. record db { profiles = f db; preferences = g db }))
  profiles-Keeps f g = record { at = λ db h. record { spent = h.spent; issued = h.issued } }

  devices-Keeps :
      (f : AuthDb → PairTable Device)
      → Keeps (IsSpent j) (modify (λ db. record db { devices = f db }))
  devices-Keeps f = record { at = λ db h. record { spent = h.spent; issued = h.issued } }

  issue-Keeps : (env : AuthEnv) (user_id : ℕ) → Keeps (IsSpent j) (issue_tokens env user_id)
  unfolding issue_tokens fresh_id is_revoked
  issue-Keeps env user_id = record {
    at = λ db h. record {
      spent = ground (
        arith,
        h.spent,
        h.issued,
        lookup-insert (db.next_id + 1) j
            (record {
              user_id = user_id;
              revoked = false;
              expires_at = env.now + env.jwt_refresh_ttl_days * 86400;
            })
            db.tokens,
      );
      issued = ground (arith, h.issued);
    };
  }

  revoke-Keeps : (o : Option (ℕ × RefreshToken)) → Keeps (IsSpent j) (revoke_token o)
  unfolding revoke_token is_revoked
  revoke-Keeps none = Keeps-pure tt
  revoke-Keeps (some r) = record {
    at = λ db h. record {
      spent =
          ground (arith, h.spent, lookup-insert r.0 j (record r.1 { revoked = true }) db.tokens);
      issued = h.issued;
    };
  }

  row-Keeps : {A : Type 0} (rows : List A) → Keeps (IsSpent j) (one_or_none rows)
  row-Keeps [] = search keeps_rules
  row-Keeps (a ∷ []) = search keeps_rules
  row-Keeps (a ∷ b ∷ l) = search keeps_rules

  save-Keeps : (a : Account) → Keeps (IsSpent j) (save_account a)
  unfolding save_account
  save-Keeps a = search accounts-Keeps

  let_in-Keeps : (a : Account) → Keeps (IsSpent j) (let_in a)
  unfolding let_in
  let_in-Keeps a = search keeps_rules

  found-Keeps : (phone : ℕ) (o : Option Account) → Keeps (IsSpent j) (account_or_new phone o)
  unfolding account_or_new
  found-Keeps phone (some a) = search (keeps_rules, let_in-Keeps)
  found-Keeps phone none = search (keeps_rules, fresh-Keeps, save-Keeps, profiles-Keeps) depth 12

  module _ (env : AuthEnv) where
    spend-Keeps : (claims : Claims) (r : ℕ × RefreshToken) → Keeps (IsSpent j) (spend env claims r)
    unfolding spend
    spend-Keeps claims r = search (keeps_rules, revoke-Keeps, issue-Keeps) depth 12

    pub refresh-Keeps : (token : String) → Keeps (IsSpent j) (refresh_tokens env token)
    unfolding refresh_tokens
    refresh-Keeps token = search (keeps_rules, spend-Keeps) depth 12

    pub logout-Keeps : (token : Option String) → Keeps (IsSpent j) (logout env token)
    unfolding logout
    logout-Keeps token = search (keeps_rules, revoke-Keeps)

    start-Keeps :
        (a : Account) (device_id : ℕ) (platform : String) (created : Bool)
        → Keeps (IsSpent j) (start_session env a device_id platform created)
    unfolding start_session upsert_device
    start-Keeps a device_id platform created =
        search (keeps_rules, devices-Keeps, issue-Keeps) depth 12

    pub login-Keeps :
        (phone device_id : ℕ) (platform : String)
        → Keeps (IsSpent j) (login_account env phone device_id platform)
    unfolding login_account
    login-Keeps phone device_id platform =
        search (keeps_rules, row-Keeps, found-Keeps, save-Keeps, start-Keeps) depth 14

    uid-Keeps : (a : Account) → Keeps (IsSpent j) (ensure_public_uid env a)
    unfolding ensure_public_uid
    uid-Keeps a = search (keeps_rules, save-Keeps)

    pub password-Keeps :
        (phone : ℕ) (password : String) (device_id : ℕ) (platform : String)
        → Keeps (IsSpent j) (login_with_password env phone password device_id platform)
    unfolding login_with_password
    password-Keeps phone password device_id platform =
        search (keeps_rules, row-Keeps, let_in-Keeps, uid-Keeps, start-Keeps) depth 18
