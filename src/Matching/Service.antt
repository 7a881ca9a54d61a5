-- ===== src/Matching/Service.antt =====
-- `swipe`, `_create_match`, `_find_active_match`, `_match_brief`, `_assert_like_allowed`,
-- `_bump_like_count` of app/modules/match/service.py, and `_ordered_pair` of app/modules/discover/service.py.
-- The card of the other user in a match is left out.
use dating_backend.Prelude.{
  ℕ, ◌+◌, ◌*◌, String, Bool, true, false, Option, none, some, ◌&&◌, not, ◌==◌, ltb, leb,
  if◌then◌else◌, or_else, is_some,
}
use text.Mathlib.Text.{◌==◌ as str_eq}
use dating_backend.Shared.Errors.{
  app_error, match_invalid, user_limited, user_not_completed, user_not_found, swipe_duplicate,
  match_limit,
}
use dating_backend.Shared.Action.{Action, pure, gets, modify, or_raise, raise_if, ◌>>=◌, ◌>>◌}
use dating_backend.Shared.Table.{lookup, one_or_none}
use dating_backend.Shared.Pairs.{get, rows_of}
use dating_backend.Shared.RateLimit.{Redis}
use dating_backend.Shared.Users.{User, is_active_user, is_limited_user}
use dating_backend.Matching.Data.{
  Swipe, SwipeAction, Match, MatchStatus, MatchDb, is_like, is_active_match, save_swipe, save_match,
}

-- The clock, the settings, the name of a day's counter, the conversation that the chat provider opens, and the
-- name that stands in for one.
pub record MatchEnv : Type 0 where
  pub now : ℕ
  pub daily_like_limit : ℕ
  pub new_user_like_limit : ℕ
  pub like_key : ℕ → String
  pub open_direct : ℕ → ℕ → Option String
  pub pending_id : ℕ → String

pub record MatchBrief : Type 0 where
  pub id : ℕ
  pub peer_id : ℕ
  pub matched_at : ℕ
  pub status : MatchStatus
  pub im_conversation_id : Option String

pub record SwipeResult : Type 0 where
  pub recorded : Bool
  pub matched : Bool
  pub found_match : Option MatchBrief

unfoldable pub ordered_pair : ℕ → ℕ → ℕ × ℕ
ordered_pair a b = if ltb a b then (a, b) else (b, a)

unfoldable pub active_only : Option Match → Option Match
active_only none = none
active_only (some m) = if is_active_match m.status then some m else none

unfoldable pub is_available : Option User → Option User
is_available none = none
is_available (some u) = if is_active_user u.status && u.discoverable then some u else none

unfoldable pub likes : Option Swipe → Bool
likes none = false
likes (some s) = is_like s.action

unfoldable pub has_key : String → Swipe → Bool
has_key key s = elim s.idempotency_key [ none ↦ false | some k ↦ str_eq k key ]

-- `if idempotency_key:`
unfoldable pub given_key : Option String → Option String
given_key none = none
given_key (some key) = if str_eq key "" then none else some key

module _ {Store : Type 0} where
  unfoldable pub find_active_match : ℕ → ℕ → Action (MatchDb Store) (Option Match)
  find_active_match a b =
      let pair = ordered_pair a b in gets (λ db. active_only (get pair.0 pair.1 db.matches))

  -- `_match_brief`: none where the other user is gone.
  unfoldable pub match_brief : ℕ → ℕ × ℕ → Match → Action (MatchDb Store) (Option MatchBrief)
  match_brief viewer_id pair m =
      let peer_id = if pair.0 == viewer_id then pair.1 else pair.0 in
      gets (λ db. elim (lookup peer_id db.users) [
        | none ↦ none
        | some peer ↦ some (record {
          id = m.id;
          peer_id = peer_id;
          matched_at = m.matched_at;
          status = m.status;
          im_conversation_id = m.im_conversation_id;
        })
      ])

  unfoldable pub brief_if_any :
      ℕ → ℕ × ℕ → Option Match → Action (MatchDb Store) (Option MatchBrief)
  brief_if_any viewer_id pair none = pure none
  brief_if_any viewer_id pair (some m) = match_brief viewer_id pair m

  -- A swipe of this user under this key, where a key is given.
  unfoldable pub earlier_swipe : ℕ → Option String → Action (MatchDb Store) (Option Swipe)
  earlier_swipe user_id none = pure none
  earlier_swipe user_id (some key) =
      gets (λ db. rows_of (has_key key) user_id db.swipes) >>= one_or_none

module _ (env : MatchEnv) where
  unfoldable pub like_limit_for : User → ℕ
  like_limit_for user =
      if ltb env.now (user.created_at + 3 * 86400)
      then env.new_user_like_limit
      else env.daily_like_limit

  unfoldable pub renewed_match : Match → Match
  renewed_match m = record m {
    status = MatchStatus.active;
    matched_at = env.now;
    unmatched_at = none;
  }

  unfoldable pub new_match : ℕ → Match
  new_match id = record {
    id = id;
    status = MatchStatus.active;
    im_conversation_id = none;
    matched_at = env.now;
    unmatched_at = none;
  }

  unfoldable pub with_conversation : ℕ → ℕ → Match → Match
  with_conversation a b m = record m {
    im_conversation_id = some (or_else (env.open_direct a b) (env.pending_id m.id));
  }

  module _ {Store : Type 0} where
    unfoldable pub match_for : ℕ → ℕ → Option Match → Action (MatchDb Store) Match
    unfolding renewed_match new_match with_conversation
    match_for a b none = do
      id ← gets (λ db. db.next_id)
      modify (λ db. record db { next_id = db.next_id + 1 })
      save_match (ordered_pair a b) (with_conversation a b (new_match id))
      pure (with_conversation a b (new_match id))
    match_for a b (some m) =
        if is_active_match m.status
        then pure m
        else (save_match (ordered_pair a b) (with_conversation a b (renewed_match m))
            >> pure (with_conversation a b (renewed_match m)))

    unfoldable pub create_match : ℕ → ℕ → Action (MatchDb Store) Match
    unfolding match_for
    create_match a b =
        gets (λ db. get (ordered_pair a b).0 (ordered_pair a b).1 db.matches) >>= match_for a b

  module _ {Store : Type 0} (redis : Redis Store) where
    unfoldable pub assert_like_allowed : User → Action (MatchDb Store) (Unit {0})
    unfolding like_limit_for
    assert_like_allowed user = do
      count ← gets (λ db. redis.count (env.like_key user.id) db.counters)
      raise_if (leb (like_limit_for user) count) (app_error match_limit 429)

    unfoldable pub bump_like_count : User → Action (MatchDb Store) (Unit {0})
    bump_like_count user = modify (λ db. record db {
      counters =
          redis.expire (env.like_key user.id) 86400
            (redis.incr (env.like_key user.id) db.counters).1;
    })

    unfoldable pub match_liked : User → ℕ → Action (MatchDb Store) SwipeResult
    unfolding bump_like_count
    match_liked user target_id = do
      m ← create_match user.id target_id
      brief ← match_brief user.id (ordered_pair user.id target_id) m
      bump_like_count user
      pure (record { recorded = true; matched = true; found_match = brief })

    -- What follows a like that is recorded.
    unfoldable pub liked : User → ℕ → Option Swipe → Action (MatchDb Store) SwipeResult
    unfolding bump_like_count match_liked
    liked user target_id back =
        if likes back
        then match_liked user target_id
        else (bump_like_count user
            >> pure (record { recorded = true; matched = false; found_match = none }))

    unfoldable pub record_swipe :
        User → ℕ → SwipeAction → Option String → Action (MatchDb Store) SwipeResult
    unfolding liked
    record_swipe user target_id action key = do
      save_swipe user.id target_id (record { action = action; idempotency_key = key })
      back ← gets (λ db. get target_id user.id db.swipes)
      if is_like action
          then liked user target_id back
          else pure (record { recorded = true; matched = false; found_match = none })

    unfoldable pub new_swipe :
        User → ℕ → SwipeAction → Option String → Action (MatchDb Store) SwipeResult
    unfolding assert_like_allowed
    new_swipe user target_id action key = do
      existing ← gets (λ db. get user.id target_id db.swipes)
      raise_if (is_some existing) (app_error swipe_duplicate 409)
      if is_like action then assert_like_allowed user else pure tt
      record_swipe user target_id action key

    unfoldable pub again_or_new :
        User → ℕ → SwipeAction → Option String → Option Swipe → Action (MatchDb Store) SwipeResult
    again_or_new user target_id action key none = new_swipe user target_id action key
    again_or_new user target_id action key (some row) = do
      found ← find_active_match user.id target_id
      brief ← brief_if_any user.id (ordered_pair user.id target_id) found
      pure (record { recorded = true; matched = is_some found; found_match = brief })

    unfoldable pub swipe :
        User → ℕ → SwipeAction → Option String → Action (MatchDb Store) SwipeResult
    swipe user target_id action key = do
      raise_if (user.id == target_id) (app_error match_invalid 400)
      raise_if (is_limited_user user.status) (app_error user_limited 403)
      raise_if (not user.profile_completed) (app_error user_not_completed 400)
      target ← gets (λ db. lookup target_id db.users)
      or_raise (is_available target) (app_error user_not_found 404)
      earlier ← earlier_swipe user.id (given_key key)
      again_or_new user target_id action key earlier
