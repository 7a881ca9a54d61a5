-- ===== src/Community/Data.antt =====
-- The posts of app/models/entities.py, and what users do to them. Likes, bookmarks and reposts are found by the
-- pair of a post and a user that their unique constraints keep.
use dating_backend.Prelude.{ℕ, String, Option, List, ◌+◌, Bool}
use dating_backend.Shared.Action.{Action, ok, modify}
use dating_backend.Shared.Table.{Table, insert}
use dating_backend.Shared.Pairs.{PairTable}
use dating_backend.Events.{Outbox}

pub data PostStatus : Type 0 where
  pending published rejected deleted : PostStatus

pub data AuditStatus : Type 0 where
  pending approved rejected : AuditStatus

pub record MediaAsset : Type 0 where
  pub owner_id : ℕ
  pub audit_status : AuditStatus
  pub url : String

-- An entry of `media`; `audit_status` is none for the placeholder.
pub record PostMedia : Type 0 where
  pub kind : String
  pub media_id : Option ℕ
  pub url : String
  pub audit_status : Option AuditStatus

pub record CommunityPost : Type 0 where
  pub author_id : ℕ
  pub content : String
  pub media : List PostMedia
  pub status : PostStatus
  pub like_count : ℕ
  pub comment_count : ℕ
  pub bookmark_count : ℕ
  pub repost_count : ℕ
  pub reviewed_by : Option ℕ
  pub reviewed_at : Option ℕ
  pub admin_note : Option String

pub record CommunityComment : Type 0 where
  pub id : ℕ
  pub post_id : ℕ
  pub author_id : ℕ
  pub content : String

-- `AdminAuditLog`, of a post or a media asset; `approves` is the action in its detail.
pub record AdminAuditLog : Type 0 where
  pub admin_id : ℕ
  pub target_type : String
  pub target_id : ℕ
  pub approves : Bool
  pub admin_note : Option String

-- A bookmark is the name of its collection, and a repost what it quotes.
pub record CommunityDb : Type 0 where
  pub posts : Table CommunityPost
  pub likes : PairTable (Unit {0})
  pub bookmarks : PairTable String
  pub reposts : PairTable (Option String)
  pub comments : List CommunityComment
  pub assets : Table MediaAsset
  pub audit : List AdminAuditLog
  pub outbox : Outbox
  pub next_id : ℕ

unfoldable pub next_number : Action CommunityDb ℕ
next_number db = ok (db.next_id, record db { next_id = db.next_id + 1 })

unfoldable pub save_post : ℕ → CommunityPost → Action CommunityDb (Unit {0})
save_post id p = modify (λ db. record db { posts = insert id p db.posts })
