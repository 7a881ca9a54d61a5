-- ===== src/Matching/Ending.antt =====
-- `unmatch` of app/modules/match/service.py, and `create_block`, `delete_block`, `_ensure_block`,
-- `_cascade_match_blocked` and `is_blocked_either` of app/modules/safety/service.py.
use dating_backend.Prelude.{
  ℕ, Bool, Option, none, some, [], ◌∷◌, ◌||◌, not, ◌==◌, if◌then◌else◌, is_some,
}
use dating_backend.Shared.Errors.{
  app_error, user_not_found, match_not_found, block_invalid, block_not_found,
}
use dating_backend.Shared.Action.{Action, pure, gets, modify, or_raise, raise_if, ◌>>=◌, ◌>>◌}
use dating_backend.Shared.Table.{lookup}
use dating_backend.Shared.Pairs.{PairTable, get, put, drop_pair}
use dating_backend.Shared.Users.{User, is_deleted}
use dating_backend.Matching.Data.{Match, MatchStatus, MatchDb, save_match}
use dating_backend.Matching.Service.{ordered_pair, find_active_match}

-- The match with this id, with its pair, where there is one.
unfoldable pub match_by_id : ℕ → PairTable Match → Option (ℕ × ℕ × Match)
match_by_id match_id [] = none
match_by_id match_id ((low, high, m) ∷ t) =
    if m.id == match_id then some (low, high, m) else match_by_id match_id t

unfoldable pub own_match : ℕ → Option (ℕ × ℕ × Match) → Option (ℕ × ℕ × Match)
own_match user_id none = none
own_match user_id (some (low, high, m)) =
    if low == user_id || high == user_id then some (low, high, m) else none

unfoldable pub ended : ℕ → MatchStatus → Match → Match
ended now status m = record m { status = status; unmatched_at = some now }

unfoldable pub not_deleted : Option User → Option User
not_deleted none = none
not_deleted (some u) = if is_deleted u.status then none else some u

module _ {Store : Type 0} (now : ℕ) where
  unfoldable pub unmatch : User → ℕ → Action (MatchDb Store) (Unit {0})
  unfolding ended
  unmatch user match_id = do
    found ← gets (λ db. own_match user.id (match_by_id match_id db.matches))
    row ← or_raise found (app_error match_not_found 404)
    save_match (row.0, row.1) (ended now MatchStatus.unmatched row.2)

  unfoldable pub block_found : ℕ × ℕ → Option Match → Action (MatchDb Store) (Unit {0})
  unfolding ended
  block_found pair none = pure tt
  block_found pair (some m) = save_match pair (ended now MatchStatus.blocked m)

  -- `_cascade_match_blocked`
  unfoldable pub cascade_match_blocked : ℕ → ℕ → Action (MatchDb Store) (Unit {0})
  cascade_match_blocked a b = do found ← find_active_match a b; block_found (ordered_pair a b) found

  -- `_ensure_block`: whether the block is new.
  unfoldable pub ensure_block : ℕ → ℕ → Action (MatchDb Store) Bool
  unfolding cascade_match_blocked
  ensure_block blocker_id blocked_id = do
    existing ← gets (λ db. get blocker_id blocked_id db.blocks)
    modify (λ db. record db {
      blocks = if is_some existing then db.blocks else put blocker_id blocked_id tt db.blocks;
    })
    cascade_match_blocked blocker_id blocked_id
    pure (not (is_some existing))

  unfoldable pub create_block : User → ℕ → Action (MatchDb Store) Bool
  unfolding ensure_block not_deleted
  create_block user target_id = do
    raise_if (user.id == target_id) (app_error block_invalid 400)
    target ← gets (λ db. lookup target_id db.users)
    or_raise (not_deleted target) (app_error user_not_found 404)
    ensure_block user.id target_id

  unfoldable pub delete_block : User → ℕ → Action (MatchDb Store) (Unit {0})
  delete_block user target_id = do
    existing ← gets (λ db. get user.id target_id db.blocks)
    or_raise existing (app_error block_not_found 404)
    modify (λ db. record db { blocks = drop_pair user.id target_id db.blocks })
