-- ===== src/Matching/Requests.antt =====
-- Requests to app/modules/discover/router.py and app/modules/safety/router.py about swipes, matches and
-- blocks, one after another.
use dating_backend.Prelude.{ℕ, ◌≡◌, true, Option, String, List, [], ◌∷◌}
use dating_backend.Shared.Action.{committed}
use dating_backend.Shared.Action.Keeps.{committed_of_commits}
use dating_backend.Shared.Pairs.{PairTable, get}
use dating_backend.Shared.RateLimit.{Redis}
use dating_backend.Shared.Users.{User}
use dating_backend.Matching.Data.{SwipeAction, Match, MatchDb}
use dating_backend.Matching.Service.{MatchEnv, swipe}
use dating_backend.Matching.Ending.{unmatch, create_block, delete_block}
use dating_backend.Matching.Mutual.{IsMutual, is_ended}
use dating_backend.Matching.Keeping.{
  Follows, create_block-Keeps, delete_block-Keeps, swipe-Keeps, unmatch-Keeps,
}

pub data MatchRequest : Type 0 where
  swipe_user : ℕ → SwipeAction → Option String → MatchRequest
  end_match : ℕ → MatchRequest
  block_user : ℕ → MatchRequest
  unblock_user : ℕ → MatchRequest

module _ {Store : Type 0} (redis : Redis Store) where
  unfoldable pub serve_match : MatchEnv → User → MatchRequest → MatchDb Store → MatchDb Store
  serve_match env user (swipe_user id action key) db =
      committed (swipe env redis user id action key db) db
  serve_match env user (end_match id) db = committed (unmatch env.now user id db) db
  serve_match env user (block_user id) db = committed (create_block env.now user id db) db
  serve_match env user (unblock_user id) db = committed (delete_block env.now user id db) db

  unfoldable pub serve_matches :
      List (MatchEnv × User × MatchRequest) → MatchDb Store → MatchDb Store
  unfolding serve_match
  serve_matches [] db = db
  serve_matches ((env, user, r) ∷ rs) db = serve_matches rs (serve_match env user r db)

  serve_match-Follows :
      (before : PairTable Match) (env : MatchEnv) (user : User) (r : MatchRequest)
      (db : MatchDb Store)
      → Follows before db
      → Follows before (serve_match env user r db)
  unfolding serve_match
  serve_match-Follows before env user (swipe_user id action key) db h =
      committed_of_commits (Follows before) (swipe env redis user id action key db) db
        ((swipe-Keeps redis env before user id action key).at db h) h
  serve_match-Follows before env user (end_match id) db h =
      committed_of_commits (Follows before) (unmatch env.now user id db) db
        ((unmatch-Keeps redis env before env.now user id).at db h) h
  serve_match-Follows before env user (block_user id) db h =
      committed_of_commits (Follows before) (create_block env.now user id db) db
        ((create_block-Keeps redis env before env.now user id).at db h) h
  serve_match-Follows before env user (unblock_user id) db h =
      committed_of_commits (Follows before) (delete_block env.now user id db) db
        ((delete_block-Keeps redis env before env.now user id).at db h) h

  serve_matches-Follows :
      (before : PairTable Match) (rs : List (MatchEnv × User × MatchRequest)) (db : MatchDb Store)
      → Follows before db
      → Follows before (serve_matches rs db)
  unfolding serve_matches
  serve_matches-Follows before [] db h = h
  serve_matches-Follows before ((env, user, r) ∷ rs) db h =
      serve_matches-Follows before rs (serve_match env user r db)
        (serve_match-Follows before env user r db h)

-- Whatever users swipe, end, block and unblock, failing requests included, every match that is stored, active or not, is one of two
-- different users, the lower first, of whom each likes the other, if that held before.
pub serve_matches-IsMutual :
    {Store : Type 0} (redis : Redis Store) (rs : List (MatchEnv × User × MatchRequest))
    (db : MatchDb Store)
    → IsMutual db.swipes db.matches
    → IsMutual (serve_matches redis rs db).swipes (serve_matches redis rs db).matches
serve_matches-IsMutual redis rs db h =
    (serve_matches-Follows redis db.matches rs db (record { sound = h; stays = λ l k e. e })).sound

-- A match that ended, by one of its users or by a block, is never active again, whatever requests follow: not
-- even where the two like each other again, or the block is taken back.
pub ended_match_stays :
    {Store : Type 0} (redis : Redis Store) (rs : List (MatchEnv × User × MatchRequest))
    (db : MatchDb Store)
    → IsMutual db.swipes db.matches
    → (l h : ℕ) → is_ended (get l h db.matches) ≡ true
    → is_ended (get l h (serve_matches redis rs db).matches) ≡ true
ended_match_stays redis rs db sound =
    (serve_matches-Follows redis db.matches rs db
      (record { sound = sound; stays = λ l k e. e })).stays
