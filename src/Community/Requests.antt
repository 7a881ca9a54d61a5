-- ===== src/Community/Requests.antt =====
-- Requests to app/modules/community/router.py and the console's reviews, one after another.
use dating_backend.Prelude.{ℕ, String, Option, List, [], ◌∷◌}
use dating_backend.Shared.Action.{Action, committed}
use dating_backend.Shared.Action.Keeps.{Keeps, committed_of_commits}
use dating_backend.Shared.Users.{User}
use dating_backend.Community.Data.{CommunityDb}
use dating_backend.Community.Service.{
  MediaItem, create_post, delete_post, like, unlike, add_comment, bookmark, unbookmark, repost,
}
use dating_backend.Community.Console.{Review, review_post, review_media, takedown_post}
use dating_backend.Community.Counts.{HasCounts}
use dating_backend.Community.Writes.{
  like-Keeps, unlike-Keeps, bookmark-Keeps, unbookmark-Keeps, repost-Keeps,
}
use dating_backend.Community.Authoring.{
  review_post-Keeps, review_media-Keeps, takedown-Keeps, comment-Keeps, delete-Keeps, create-Keeps,
}

pub data CommunityRequest : Type 0 where
  post : String → List MediaItem → CommunityRequest
  delete like_it unlike_it : ℕ → CommunityRequest
  comment : ℕ → String → CommunityRequest
  bookmark_it : ℕ → String → CommunityRequest
  unbookmark_it : ℕ → CommunityRequest
  repost_it : ℕ → Option String → CommunityRequest
  judge judge_media : Review → ℕ → CommunityRequest
  take_down : ℕ → CommunityRequest

unfoldable pub serve_community :
    (String → String) → User → CommunityRequest → CommunityDb → CommunityDb
serve_community url user (post content items) db =
    committed (create_post url user content items db) db
serve_community url user (delete id) db = committed (delete_post user.id id db) db
serve_community url user (like_it id) db = committed (like user.id id db) db
serve_community url user (unlike_it id) db = committed (unlike user.id id db) db
serve_community url user (comment id content) db = committed (add_comment user id content db) db
serve_community url user (bookmark_it id name) db = committed (bookmark user.id id name db) db
serve_community url user (unbookmark_it id) db = committed (unbookmark user.id id db) db
serve_community url user (repost_it id quote) db = committed (repost user.id id quote db) db
serve_community url user (judge review id) db = committed (review_post review id db) db
serve_community url user (judge_media review id) db = committed (review_media review id db) db
serve_community url user (take_down id) db = committed (takedown_post id db) db

unfoldable pub serve_posts :
    (String → String) → List (User × CommunityRequest) → CommunityDb → CommunityDb
unfolding serve_community
serve_posts url [] db = db
serve_posts url ((user, r) ∷ rs) db = serve_posts url rs (serve_community url user r db)

committed-HasCounts :
    {A : Type 0} (m : Action CommunityDb A) (db : CommunityDb)
    → Keeps HasCounts m
    → HasCounts db
    → HasCounts (committed (m db) db)
committed-HasCounts m db k h = committed_of_commits HasCounts (m db) db (k.at db h) h

serve_community-HasCounts :
    (url : String → String) (user : User) (r : CommunityRequest) (db : CommunityDb)
    → HasCounts db
    → HasCounts (serve_community url user r db)
unfolding serve_community
serve_community-HasCounts url user (post content items) db h =
    committed-HasCounts _ db (create-Keeps url user content items) h
serve_community-HasCounts url user (delete id) db h =
    committed-HasCounts _ db (delete-Keeps user.id id) h
serve_community-HasCounts url user (like_it id) db h =
    committed-HasCounts _ db (like-Keeps user.id id) h
serve_community-HasCounts url user (unlike_it id) db h =
    committed-HasCounts _ db (unlike-Keeps user.id id) h
serve_community-HasCounts url user (comment id content) db h =
    committed-HasCounts _ db (comment-Keeps user id content) h
serve_community-HasCounts url user (bookmark_it id name) db h =
    committed-HasCounts _ db (bookmark-Keeps user.id id name) h
serve_community-HasCounts url user (unbookmark_it id) db h =
    committed-HasCounts _ db (unbookmark-Keeps user.id id) h
serve_community-HasCounts url user (repost_it id quote) db h =
    committed-HasCounts _ db (repost-Keeps user.id id quote) h
serve_community-HasCounts url user (judge review id) db h =
    committed-HasCounts _ db (review_post-Keeps review id) h
serve_community-HasCounts url user (judge_media review id) db h =
    committed-HasCounts _ db (review_media-Keeps review id) h
serve_community-HasCounts url user (take_down id) db h =
    committed-HasCounts _ db (takedown-Keeps id) h

-- Whatever users post, delete, like, comment, bookmark, repost and take back, and whatever the console approves,
-- rejects and takes down, failing requests included, the counts of likes, comments, bookmarks and reposts that every
-- post shows are the numbers of its rows, if they were before.
pub serve_posts-HasCounts :
    (url : String → String) (rs : List (User × CommunityRequest)) (db : CommunityDb)
    → HasCounts db
    → HasCounts (serve_posts url rs db)
unfolding serve_posts
serve_posts-HasCounts url [] db h = h
serve_posts-HasCounts url ((user, r) ∷ rs) db h =
    serve_posts-HasCounts url rs (serve_community url user r db)
      (serve_community-HasCounts url user r db h)
