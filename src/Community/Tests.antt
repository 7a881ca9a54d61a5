-- ===== src/Community/Tests.antt =====
-- Concrete posts, on which the theorems apply.
use dating_backend.Prelude.{ℕ, refl, true, List, [], ◌∷◌, arith, none, some}
use dating_backend.Shared.Table.{lookup}
use dating_backend.Shared.Pairs.{count_of}
use dating_backend.Shared.Users.{User, UserStatus}
use dating_backend.Community.Data.{CommunityPost, CommunityDb, PostStatus}
use dating_backend.Community.Console.{Review}
use dating_backend.Community.Counts.{HasCounts, tally, counts, rows_of_post, comments_of}
use dating_backend.Community.Requests.{
  CommunityRequest, like_it, unlike_it, comment, post, bookmark_it, judge, serve_posts,
  serve_posts-HasCounts,
}

abbrev someone : ℕ → User
someone id = record {
  id = id;
  status = UserStatus.active;
  discoverable = true;
  profile_completed = true;
  created_at = 0;
}

abbrev shown : CommunityPost
shown = record {
  author_id = 1;
  content = "hello";
  media = [];
  status = PostStatus.published;
  like_count = 0;
  comment_count = 0;
  bookmark_count = 0;
  repost_count = 0;
  reviewed_by = none;
  reviewed_at = none;
  admin_note = none;
}

abbrev feed : CommunityDb
feed = record {
  posts = (4, shown) ∷ [];
  likes = [];
  bookmarks = [];
  reposts = [];
  comments = [];
  assets = [];
  audit = [];
  outbox = record { events = []; next_id = 0 };
  next_id = 5;
}

abbrev approval : Review
approval = record { admin_id = 9; now = 50; approves = some true; admin_note = none }

abbrev reactions : List (User × CommunityRequest)
reactions =
    (someone 2, like_it 4)
    ∷ (someone 3, like_it 4)
    ∷ (someone 2, like_it 4)
    ∷ (someone 2, unlike_it 4)
    ∷ (someone 3, comment 4 "nice")
    ∷ (someone 3, bookmark_it 4 "")
    ∷ (someone 1, post "more" [])
    ∷ (someone 9, judge approval 6)
    ∷ (someone 3, like_it 6)
    ∷ []

feed-HasCounts : HasCounts feed
unfolding lookup tally counts rows_of_post count_of comments_of
feed-HasCounts = record {
  counted = λ k p e. ground (arith, e);
  used = λ k p e. ground (arith, e);
  unused = λ k past. refl;
}

serve_posts-HasCounts_example : HasCounts (serve_posts (λ u. u) reactions feed)
serve_posts-HasCounts_example = serve_posts-HasCounts (λ u. u) reactions feed feed-HasCounts
