-- ===== src/Matching/Data.antt =====
-- The swipes, matches and blocks of app/models/entities.py. A swipe is found by its actor and target, a match by
-- its lower and higher user, a block by its two users, as the unique constraints keep them.
use dating_backend.Prelude.{ℕ, String, Bool, true, false, Option}
use dating_backend.Shared.Action.{Action, modify}
use dating_backend.Shared.Table.{Table}
use dating_backend.Shared.Pairs.{PairTable, put}
use dating_backend.Shared.Users.{User}

pub data SwipeAction : Type 0 where
  like skip : SwipeAction

pub data MatchStatus : Type 0 where
  active unmatched blocked : MatchStatus

pub record Swipe : Type 0 where
  pub action : SwipeAction
  pub idempotency_key : Option String

pub record Match : Type 0 where
  pub id : ℕ
  pub status : MatchStatus
  pub im_conversation_id : Option String
  pub matched_at : ℕ
  pub unmatched_at : Option ℕ

-- `Store` holds the counters of Redis.
pub record MatchDb (Store : Type 0) : Type 0 where
  pub users : Table User
  pub swipes : PairTable Swipe
  pub matches : PairTable Match
  pub blocks : PairTable (Unit {0})
  pub counters : Store
  pub next_id : ℕ

unfoldable pub is_like : SwipeAction → Bool
is_like like = true
is_like skip = false

unfoldable pub is_active_match : MatchStatus → Bool
is_active_match active = true
is_active_match _ = false

module _ {Store : Type 0} where
  unfoldable pub save_swipe : ℕ → ℕ → Swipe → Action (MatchDb Store) (Unit {0})
  save_swipe actor_id target_id s =
      modify (λ db. record db { swipes = put actor_id target_id s db.swipes })

  unfoldable pub save_match : ℕ × ℕ → Match → Action (MatchDb Store) (Unit {0})
  save_match pair m = modify (λ db. record db { matches = put pair.0 pair.1 m db.matches })
