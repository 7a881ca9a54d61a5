-- ===== src/Matching/Tests.antt =====
-- Concrete swipes, on which the theorems apply.
use dating_backend.Prelude.{
  ℕ, suc, ◌≡◌, refl, true, none, some, String, [], ◌∷◌, arith, if◌then◌else◌,
}
use text.Mathlib.Text.{◌==◌ as str_eq}
use dating_backend.Shared.Action.Keeps.{Returns}
use dating_backend.Shared.RateLimit.{Redis}
use dating_backend.Shared.Table.{lookup}
use dating_backend.Shared.Pairs.{get}
use dating_backend.Shared.Users.{User, UserStatus, is_limited_user, is_active_user}
use dating_backend.Matching.Data.{like, MatchStatus, MatchDb, is_like, is_active_match}
use dating_backend.Matching.Service.{
  MatchEnv, swipe, likes, is_available, given_key, like_limit_for,
}
use dating_backend.Matching.Mutual.{IsMutual, is_ended}
use dating_backend.Matching.Requests.{
  swipe_user, end_match, serve_matches, serve_matches-IsMutual, ended_match_stays,
}
use dating_backend.Matching.LikeBack.{AreMatched, like_back_matches}

abbrev counters : Redis (String → ℕ)
counters = record {
  incr = λ k s. (suc (s k), λ j. if str_eq k j then suc (s j) else s j);
  expire = λ k time s. s;
  count = λ k s. s k;
}

abbrev env : MatchEnv
env = record {
  now = 1000000;
  daily_like_limit = 100;
  new_user_like_limit = 30;
  like_key = λ _. "swipe:like";
  open_direct = λ _ _. none;
  pending_id = λ _. "pending";
}

abbrev someone : ℕ → User
someone id = record {
  id = id;
  status = UserStatus.active;
  discoverable = true;
  profile_completed = true;
  created_at = 0;
}

abbrev one_like : MatchDb (String → ℕ)
one_like = record {
  users = (1, someone 1) ∷ (2, someone 2) ∷ [];
  swipes = (2, 1, record { action = like; idempotency_key = none }) ∷ [];
  matches = [];
  blocks = (1, 2, tt) ∷ [];
  counters = λ _. 0;
  next_id = 0;
}

one_like-IsMutual : IsMutual one_like.swipes one_like.matches
unfolding get
one_like-IsMutual = record { mutual_likes = λ l h e. cc }

like_back_matches_example :
    Returns (AreMatched 1 2) (swipe env counters (someone 1) 2 like none one_like)
unfolding is_limited_user is_active_user is_available lookup given_key get likes is_like
    like_limit_for
like_back_matches_example =
    like_back_matches counters env (someone 1) 2 (someone 2) none one_like one_like-IsMutual
      (ground arith) refl refl refl refl refl (ground arith) refl

serve_matches-IsMutual_example :
    IsMutual
      (serve_matches counters
        ((env, someone 1, swipe_user 2 like none) ∷ (env, someone 1, end_match 0) ∷ [])
        one_like).swipes
      (serve_matches counters
        ((env, someone 1, swipe_user 2 like none) ∷ (env, someone 1, end_match 0) ∷ [])
        one_like).matches
serve_matches-IsMutual_example =
    serve_matches-IsMutual counters
      ((env, someone 1, swipe_user 2 like none) ∷ (env, someone 1, end_match 0) ∷ []) one_like
      one_like-IsMutual

abbrev ended_once : MatchDb (String → ℕ)
ended_once = record {
  users = (1, someone 1) ∷ (2, someone 2) ∷ [];
  swipes =
      (1, 2, record { action = like; idempotency_key = none })
      ∷ (2, 1, record { action = like; idempotency_key = none })
      ∷ [];
  matches =
      (
        1,
        2,
        record {
          id = 0;
          status = MatchStatus.unmatched;
          im_conversation_id = none;
          matched_at = 5;
          unmatched_at = some 6;
        },
      )
      ∷ [];
  blocks = [];
  counters = λ _. 0;
  next_id = 1;
}

ended_once-IsMutual : IsMutual ended_once.swipes ended_once.matches
unfolding get likes is_like
ended_once-IsMutual = record { mutual_likes = λ l h e. ground (arith, e) }

ended_match_stays_example :
    is_ended (
      get 1 2
        (serve_matches counters ((env, someone 1, swipe_user 2 like none) ∷ []) ended_once).matches)
    ≡ true
unfolding get is_ended is_active_match
ended_match_stays_example =
    ended_match_stays counters ((env, someone 1, swipe_user 2 like none) ∷ []) ended_once
      ended_once-IsMutual 1 2 refl
