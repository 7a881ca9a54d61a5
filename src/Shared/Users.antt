-- ===== src/Shared/Users.antt =====
-- The account columns of app/models/entities.py that the services of users test.
use dating_backend.Prelude.{ℕ, Bool, true, false, ◌||◌, is_some}
use dating_backend.Shared.Pairs.{PairTable, get}

pub data UserStatus : Type 0 where
  active limited banned deleted : UserStatus

pub record User : Type 0 where
  pub id : ℕ
  pub status : UserStatus
  pub discoverable : Bool
  pub profile_completed : Bool
  pub created_at : ℕ

unfoldable pub is_active_user : UserStatus → Bool
is_active_user active = true
is_active_user _ = false

unfoldable pub is_limited_user : UserStatus → Bool
is_limited_user limited = true
is_limited_user _ = false

unfoldable pub is_banned : UserStatus → Bool
is_banned banned = true
is_banned _ = false

unfoldable pub is_deleted : UserStatus → Bool
is_deleted deleted = true
is_deleted _ = false

-- `is_blocked_either` of app/modules/safety/service.py, over the rows of `Block`.
unfoldable pub is_blocked_either : ℕ → ℕ → PairTable (Unit {0}) → Bool
is_blocked_either a b blocks = is_some (get a b blocks) || is_some (get b a blocks)
