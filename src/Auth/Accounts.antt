-- ===== src/Auth/Accounts.antt =====
-- The account that a login finds or makes, its public number and its device: `login`, `_upsert_device`, and
-- app/modules/messaging/uid.py.
use dating_backend.Prelude.{
  ℕ, ◌+◌, ◌%◌, zero, suc, String, Bool, true, false, Option, none, some, ◌&&◌, not, ◌==◌, any,
  if◌then◌else◌,
}
use dating_backend.Shared.Errors.{app_error, auth_banned, auth_unauthorized}
use dating_backend.Shared.Action.{Action, pure, gets, modify, raise_if, ◌>>=◌, ◌>>◌}
use dating_backend.Shared.Table.{Table, insert}
use dating_backend.Shared.Pairs.{put}
use dating_backend.Shared.Users.{UserStatus, is_banned, is_deleted}
use dating_backend.Auth.Data.{Account, AuthDb, AuthEnv, PublicUid, digits, letters, fresh_id}

unfoldable pub save_account : Account → Action AuthDb (Unit {0})
save_account a = modify (λ db. record db { accounts = insert a.id a db.accounts })

unfoldable pub has_phone : ℕ → Account → Bool
has_phone phone a = a.phone == phone

unfoldable pub is_uid : ℕ → Option PublicUid → Bool
is_uid n none = false
is_uid n (some (digits m)) = m == n
is_uid n (some (letters _)) = false

unfoldable pub uid_taken : ℕ → ℕ → Table Account → Bool
unfolding is_uid
uid_taken user_id n t = any (λ r. is_uid n r.1.public_uid && not (r.1.id == user_id)) t

-- `derive_public_uid`
unfoldable pub derive_public_uid : AuthEnv → ℕ → ℕ
derive_public_uid env user_id = env.id_prefix user_id % 1000000000

-- The loop over the numbers next to a candidate, for as many tries as are left.
unfoldable pub free_uid : ℕ → ℕ → ℕ → Table Account → PublicUid
unfolding uid_taken
free_uid zero user_id n t = letters user_id
free_uid (suc tries) user_id n t =
    let rest = free_uid tries user_id ((n + 1) % 1000000000) t in
    if uid_taken user_id n t then rest else digits n

unfoldable pub with_uid : AuthEnv → Account → Table Account → Account
unfolding free_uid derive_public_uid
with_uid env a t = elim a.public_uid [
  | some _ ↦ a
  | none ↦ record a { public_uid = some (free_uid 20 a.id (derive_public_uid env a.id) t) }
]

unfoldable pub ensure_public_uid : AuthEnv → Account → Action AuthDb Account
unfolding with_uid save_account
ensure_public_uid env a = do b ← gets (λ db. with_uid env a db.accounts); save_account b; pure b

unfoldable pub upsert_device : ℕ → ℕ → ℕ → String → Action AuthDb (Unit {0})
upsert_device now user_id device_id platform = modify (λ db. record db {
  devices = put user_id device_id (record { platform = platform; last_seen_at = now }) db.devices;
})

unfoldable pub new_user : ℕ → ℕ → Account
new_user id phone = record {
  id = id;
  phone = phone;
  password_hash = none;
  public_uid = none;
  status = UserStatus.active;
  last_active_at = none;
}

-- A banned or deleted account is not let in.
unfoldable pub let_in : Account → Action AuthDb (Unit {0})
let_in a = do
  raise_if (is_banned a.status) (app_error auth_banned 403)
  raise_if (is_deleted a.status) (app_error auth_unauthorized 401)

unfoldable pub account_or_new : ℕ → Option Account → Action AuthDb (Account × Bool)
unfolding new_user save_account let_in
account_or_new phone (some a) = do let_in a; pure (a, false)
account_or_new phone none = do
  id ← fresh_id
  save_account (new_user id phone)
  modify (λ db. record db {
    profiles = insert id tt db.profiles;
    preferences = insert id tt db.preferences;
  })
  pure (new_user id phone, true)
