-- ===== src/Matching/LikeBack.antt =====
-- A like of someone who already likes the user makes a match.
use dating_backend.Prelude.{
  ℕ, ◌≡◌, ◌≢◌, ◌<◌, refl, Bool, true, false, not, Option, none, some, String, is_some, arith, ◌==◌,
  leb,
}
use dating_backend.Shared.Errors.{
  app_error, match_invalid, user_limited, user_not_completed, swipe_duplicate, match_limit,
}
use dating_backend.Shared.Action.{or_raise}
use dating_backend.Shared.Action.Keeps.{Returns, Returns-guard, Returns-bind}
use dating_backend.Shared.Table.{lookup}
use dating_backend.Shared.Pairs.{get, put, get-put}
use dating_backend.Shared.RateLimit.{Redis}
use dating_backend.Shared.Users.{User, is_limited_user}
use dating_backend.Matching.Data.{
  Swipe, Match, MatchDb, like, is_like, is_active_match, save_swipe, save_match,
}
use dating_backend.Matching.Service.{
  MatchEnv, SwipeResult, ordered_pair, likes, given_key, match_brief, earlier_swipe, is_available,
  match_for, create_match, new_match, with_conversation, assert_like_allowed, bump_like_count,
  match_liked, liked, record_swipe, new_swipe, again_or_new, swipe, like_limit_for,
}
use dating_backend.Matching.Mutual.{IsMutual, not_matched}

unfoldable pub is_active : Option Match → Bool
is_active none = false
is_active (some m) = is_active_match m.status

-- The match of these two users is active, and the like is stored.
pub record AreMatched {Store : Type 0} (a b : ℕ) (r : SwipeResult) (db : MatchDb Store)
    : Type 0 where
  pub told : r.matched ≡ true
  pub active : is_active (get (ordered_pair a b).0 (ordered_pair a b).1 db.matches) ≡ true
  pub kept : likes (get a b db.swipes) ≡ true

module _ {Store : Type 0} (redis : Redis Store) (env : MatchEnv) (user : User) (target_id : ℕ) where
  absent : (o : Option Match) → is_some o ≡ false → o ≡ none
  absent none e = refl
  absent (some m) e = cc

  -- A new match of the two is active.
  abbrev IsStored : Match → MatchDb Store → Type 0
  IsStored _ db =
      (is_active
          (get (ordered_pair user.id target_id).0 (ordered_pair user.id target_id).1 db.matches)
        ≡ true)
      × (likes (get user.id target_id db.swipes) ≡ true)

  creating_now :
      (db : MatchDb Store)
      → is_some
          (get (ordered_pair user.id target_id).0 (ordered_pair user.id target_id).1 db.matches)
        ≡ false
      → likes (get user.id target_id db.swipes) ≡ true
      → Returns IsStored (create_match env user.id target_id db)
  unfolding create_match match_for save_match is_active is_active_match with_conversation new_match
  creating_now db new wants =
      let pair = ordered_pair user.id target_id in
      let m = with_conversation env user.id target_id (new_match env db.next_id) in
      rw (absent (get pair.0 pair.1 db.matches) new)
        (ground (arith, get-put pair.0 pair.1 pair.0 pair.1 m db.matches), wants)

  matching_now :
      (db : MatchDb Store)
      → is_some
          (get (ordered_pair user.id target_id).0 (ordered_pair user.id target_id).1 db.matches)
        ≡ false
      → likes (get user.id target_id db.swipes) ≡ true
      → Returns (AreMatched user.id target_id) (match_liked env redis user target_id db)
  unfolding match_liked match_brief bump_like_count
  matching_now db new wants =
      Returns-bind IsStored (AreMatched user.id target_id) (create_match env user.id target_id) _ db
        (creating_now db new wants)
        λ m db' (now, kept). record { told = refl; active = now; kept = kept }

  recording_now :
      (key : Option String) (db : MatchDb Store)
      → IsMutual db.swipes db.matches
      → user.id ≢ target_id
      → get user.id target_id db.swipes ≡ none
      → likes (get target_id user.id db.swipes) ≡ true
      → Returns (AreMatched user.id target_id) (record_swipe env redis user target_id like key db)
  unfolding record_swipe save_swipe liked likes is_like
  recording_now key db h ne new back =
      let s : Swipe = record { action = like; idempotency_key = key } in
      let db1 : MatchDb Store = record db { swipes = put user.id target_id s db.swipes } in
      let still : likes (get target_id user.id db1.swipes) ≡ true =
        ground (arith, get-put user.id target_id target_id user.id s db.swipes, ne, back) in
      rw still (
        matching_now db1 (not_matched db.swipes db.matches h user.id target_id new)
          (ground (arith, get-put user.id target_id user.id target_id s db.swipes)))

  -- A completed, unlimited user who has likes left today likes an available user, whom it has not swiped before
  -- and who likes it, with no key: the swipe commits and answers a match, the match of the two is active, and the like is
  -- stored. Whether one of them has blocked the other is not asked.
  pub like_back_matches :
      (target : User) (key : Option String) (db : MatchDb Store)
      → IsMutual db.swipes db.matches
      → user.id ≢ target_id
      → is_limited_user user.status ≡ false
      → user.profile_completed ≡ true
      → is_available (lookup target_id db.users) ≡ some target
      → given_key key ≡ none
      → get user.id target_id db.swipes ≡ none
      → redis.count (env.like_key user.id) db.counters < like_limit_for env user
      → likes (get target_id user.id db.swipes) ≡ true
      → Returns (AreMatched user.id target_id) (swipe env redis user target_id like key db)
  unfolding swipe again_or_new new_swipe earlier_swipe assert_like_allowed is_like
  like_back_matches target key db h ne free completed available no_key new left back =
      let R : SwipeResult → MatchDb Store → Type 0 = AreMatched user.id target_id in
      Returns-guard R (user.id == target_id) (app_error match_invalid 400) _ db (ground (arith, ne))
        (Returns-guard R (is_limited_user user.status) (app_error user_limited 403) _ db free (
          Returns-guard R (not user.profile_completed) (app_error user_not_completed 400) _ db
            (ground (arith, completed))
            (rw (available, or_raise)
              (rw no_key (
                Returns-guard R (is_some (get user.id target_id db.swipes))
                  (app_error swipe_duplicate 409) _ db (ground (arith, new))
                  (Returns-guard R
                    (leb (like_limit_for env user) (redis.count (env.like_key user.id) db.counters))
                    (app_error match_limit 429) _ db (ground (arith, left))
                    (recording_now key db h ne new back)))))))
