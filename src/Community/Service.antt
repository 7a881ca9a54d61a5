-- ===== src/Community/Service.antt =====
-- `CommunityService` of app/modules/community/service.py. Texts are already stripped and cut to their columns.
use dating_backend.Prelude.{
  ℕ, ◌+◌, ◌-◌, String, Bool, true, false, Option, none, some, List, [], ◌∷◌, ◌++◌, not, ◌==◌,
  if◌then◌else◌,
}
use text.Mathlib.Text.{◌==◌ as str_eq}
use dating_backend.Shared.Errors.{
  app_error, user_limited, user_not_completed, community_not_found, community_forbidden,
  community_invalid, media_forbidden,
}
use dating_backend.Shared.Action.{Action, pure, gets, modify, or_raise, raise_if, ◌>>=◌, ◌>>◌}
use dating_backend.Shared.Table.{lookup}
use dating_backend.Shared.Pairs.{get, put, drop_one}
use dating_backend.Shared.Users.{User, is_limited_user}
use dating_backend.Community.Data.{
  CommunityPost, CommunityDb, PostStatus, PostMedia, MediaAsset, AuditStatus, next_number,
  save_post, deleted, published, rejected,
}

unfoldable pub is_published : PostStatus → Bool
is_published published = true
is_published _ = false

unfoldable pub is_deleted_post : PostStatus → Bool
is_deleted_post deleted = true
is_deleted_post _ = false

unfoldable pub is_rejected : AuditStatus → Bool
is_rejected rejected = true
is_rejected _ = false

unfoldable pub published_post : Option CommunityPost → Option CommunityPost
published_post none = none
published_post (some p) = if is_published p.status then some p else none

-- `_get_published_post`
unfoldable pub get_published_post : ℕ → Action CommunityDb CommunityPost
unfolding published_post
get_published_post post_id = do
  found ← gets (λ db. lookup post_id db.posts)
  or_raise (published_post found) (app_error community_not_found 404)

pub record MediaItem : Type 0 where
  pub kind : String
  pub media_id : Option ℕ
  pub url : String

unfoldable pub owned_asset : ℕ → Option MediaAsset → Option MediaAsset
owned_asset user_id none = none
owned_asset user_id (some m) = if m.owner_id == user_id then some m else none

module _ (stored_url : String → String) where
  unfoldable pub media_of : ℕ → String → String → Option ℕ → Action CommunityDb PostMedia
  unfolding owned_asset
  media_of user_id kind url (some media_id) = do
    found ← gets (λ db. owned_asset user_id (lookup media_id db.assets))
    m ← or_raise found (app_error media_forbidden 400)
    raise_if (is_rejected m.audit_status) (app_error media_forbidden 400)
    pure (record {
      kind = kind;
      media_id = some media_id;
      url = stored_url m.url;
      audit_status = some m.audit_status;
    })
  media_of user_id kind url none = do
    raise_if (str_eq url "") (app_error community_invalid 400)
    pure (record { kind = kind; media_id = none; url = stored_url url; audit_status = none })

  -- `_normalize_media`
  unfoldable pub normalize_media : ℕ → List MediaItem → Action CommunityDb (List PostMedia)
  unfolding media_of
  normalize_media user_id [] = pure []
  normalize_media user_id (i ∷ is) = do
    m ← media_of user_id i.kind i.url i.media_id
    ms ← normalize_media user_id is
    pure (m ∷ ms)

  unfoldable pub new_post : ℕ → String → List PostMedia → CommunityPost
  new_post user_id content media = record {
    author_id = user_id;
    content = content;
    media = media;
    status = PostStatus.pending;
    like_count = 0;
    comment_count = 0;
    bookmark_count = 0;
    repost_count = 0;
    reviewed_by = none;
    reviewed_at = none;
    admin_note = none;
  }

  unfoldable pub create_post : User → String → List MediaItem → Action CommunityDb ℕ
  unfolding normalize_media new_post
  create_post user content items = do
    raise_if (is_limited_user user.status) (app_error user_limited 403)
    raise_if (not user.profile_completed) (app_error user_not_completed 400)
    media ← normalize_media user.id items
    id ← next_number
    save_post id (new_post user.id content media)
    pure id

unfoldable pub not_deleted_post : Option CommunityPost → Option CommunityPost
not_deleted_post none = none
not_deleted_post (some p) = if is_deleted_post p.status then none else some p

unfoldable pub delete_post : ℕ → ℕ → Action CommunityDb (Unit {0})
unfolding not_deleted_post
delete_post user_id post_id = do
  found ← gets (λ db. lookup post_id db.posts)
  p ← or_raise (not_deleted_post found) (app_error community_not_found 404)
  raise_if (not (p.author_id == user_id)) (app_error community_forbidden 403)
  save_post post_id (record p { status = PostStatus.deleted })

unfoldable pub like_once : ℕ → ℕ → CommunityPost → Option (Unit {0}) → Action CommunityDb ℕ
like_once post_id user_id p (some _) = pure p.like_count
like_once post_id user_id p none = do
  modify (λ db. record db { likes = put post_id user_id tt db.likes })
  save_post post_id (record p { like_count = p.like_count + 1 })
  pure (p.like_count + 1)

unfoldable pub like : ℕ → ℕ → Action CommunityDb ℕ
unfolding like_once
like user_id post_id = do
  p ← get_published_post post_id
  hit ← gets (λ db. get post_id user_id db.likes)
  like_once post_id user_id p hit

unfoldable pub unlike_once : ℕ → ℕ → CommunityPost → Option (Unit {0}) → Action CommunityDb ℕ
unlike_once post_id user_id p none = pure p.like_count
unlike_once post_id user_id p (some _) = do
  modify (λ db. record db { likes = drop_one post_id user_id db.likes })
  save_post post_id (record p { like_count = p.like_count - 1 })
  pure (p.like_count - 1)

unfoldable pub unlike : ℕ → ℕ → Action CommunityDb ℕ
unfolding unlike_once
unlike user_id post_id = do
  p ← get_published_post post_id
  hit ← gets (λ db. get post_id user_id db.likes)
  unlike_once post_id user_id p hit

unfoldable pub add_comment : User → ℕ → String → Action CommunityDb ℕ
add_comment user post_id content = do
  raise_if (is_limited_user user.status) (app_error user_limited 403)
  p ← get_published_post post_id
  id ← next_number
  modify (λ db. record db {
    comments =
        db.comments
        ++ (record { id = id; post_id = post_id; author_id = user.id; content = content } ∷ []);
  })
  save_post post_id (record p { comment_count = p.comment_count + 1 })
  pure id

unfoldable pub collection_of : String → String
collection_of name = if str_eq name "" then "default" else name

unfoldable pub bookmark_once : ℕ → ℕ → String → CommunityPost → Option String → Action CommunityDb ℕ
unfolding collection_of
bookmark_once post_id user_id name p (some _) = do
  modify (λ db. record db { bookmarks = put post_id user_id (collection_of name) db.bookmarks })
  pure p.bookmark_count
bookmark_once post_id user_id name p none = do
  modify (λ db. record db { bookmarks = put post_id user_id (collection_of name) db.bookmarks })
  save_post post_id (record p { bookmark_count = p.bookmark_count + 1 })
  pure (p.bookmark_count + 1)

unfoldable pub bookmark : ℕ → ℕ → String → Action CommunityDb ℕ
unfolding bookmark_once
bookmark user_id post_id name = do
  p ← get_published_post post_id
  hit ← gets (λ db. get post_id user_id db.bookmarks)
  bookmark_once post_id user_id name p hit

unfoldable pub unbookmark_once : ℕ → ℕ → CommunityPost → Option String → Action CommunityDb ℕ
unbookmark_once post_id user_id p none = pure p.bookmark_count
unbookmark_once post_id user_id p (some _) = do
  modify (λ db. record db { bookmarks = drop_one post_id user_id db.bookmarks })
  save_post post_id (record p { bookmark_count = p.bookmark_count - 1 })
  pure (p.bookmark_count - 1)

unfoldable pub unbookmark : ℕ → ℕ → Action CommunityDb ℕ
unfolding unbookmark_once
unbookmark user_id post_id = do
  p ← get_published_post post_id
  hit ← gets (λ db. get post_id user_id db.bookmarks)
  unbookmark_once post_id user_id p hit

unfoldable pub quoted : Option String → Option String
quoted none = none
quoted (some t) = if str_eq t "" then none else some t

unfoldable pub repost_once :
    ℕ → ℕ → Option String → CommunityPost → Option (Option String) → Action CommunityDb ℕ
unfolding quoted
repost_once post_id user_id quote p (some _) = pure p.repost_count
repost_once post_id user_id quote p none = do
  modify (λ db. record db { reposts = put post_id user_id (quoted quote) db.reposts })
  save_post post_id (record p { repost_count = p.repost_count + 1 })
  pure (p.repost_count + 1)

unfoldable pub repost : ℕ → ℕ → Option String → Action CommunityDb ℕ
unfolding repost_once
repost user_id post_id quote = do
  p ← get_published_post post_id
  hit ← gets (λ db. get post_id user_id db.reposts)
  repost_once post_id user_id quote p hit
