-- ===== src/Community/Console.antt =====
-- The console's reviews: `review_post` of app/modules/admin/community.py, and `review_media` and the posts of
-- `_takedown` of app/modules/admin/moderation.py.
use dating_backend.Prelude.{
  ℕ, String, Bool, true, false, Option, none, some, [], ◌∷◌, ◌++◌, not, if◌then◌else◌,
}
use dating_backend.Shared.Errors.{
  app_error, moderation_invalid, moderation_not_found, community_not_found,
}
use dating_backend.Shared.Action.{
  Action, pure, gets, modify, or_raise, raise_if, on_part, ◌>>=◌, ◌>>◌,
}
use dating_backend.Shared.Table.{lookup, insert}
use dating_backend.Events.{DomainEventName, enqueue}
use dating_backend.Community.Data.{
  CommunityPost, CommunityDb, PostStatus, AuditStatus, save_post, pending,
}
use dating_backend.Community.Service.{not_deleted_post}

unfoldable pub is_pending_post : PostStatus → Bool
is_pending_post pending = true
is_pending_post _ = false

-- A review by an admin, now. `approves` is none where the action is no known one.
pub record Review : Type 0 where
  pub admin_id : ℕ
  pub now : ℕ
  pub approves : Option Bool
  pub admin_note : Option String

module _ (review : Review) where
  unfoldable pub audited : DomainEventName → String → ℕ → Bool → Action CommunityDb (Unit {0})
  audited name target id approves = do
    modify (λ db. record db {
      audit =
          db.audit
          ++ (record {
            admin_id = review.admin_id;
            target_type = target;
            target_id = id;
            approves = approves;
            admin_note = review.admin_note;
          }
              ∷ []);
    })
    on_part (λ db. db.outbox) (λ o db. record db { outbox = o })
        (enqueue review.now name target id none)
    pure tt

  unfoldable pub reviewed_post : Bool → CommunityPost → CommunityPost
  reviewed_post approves p = record p {
    status = if approves then PostStatus.published else PostStatus.rejected;
    reviewed_by = some review.admin_id;
    reviewed_at = some review.now;
    admin_note = review.admin_note;
  }

  unfoldable pub review_post : ℕ → Action CommunityDb (Unit {0})
  unfolding reviewed_post audited
  review_post post_id = do
    approves ← or_raise review.approves (app_error moderation_invalid 400)
    found ← gets (λ db. lookup post_id db.posts)
    p ← or_raise (not_deleted_post found) (app_error community_not_found 404)
    raise_if (not (is_pending_post p.status)) (app_error moderation_invalid 409)
    save_post post_id (reviewed_post approves p)
    audited DomainEventName.community_post_reviewed "community_post" post_id approves

  unfoldable pub review_media : ℕ → Action CommunityDb (Unit {0})
  unfolding audited
  review_media media_id = do
    approves ← or_raise review.approves (app_error moderation_invalid 400)
    found ← gets (λ db. lookup media_id db.assets)
    m ← or_raise found (app_error moderation_not_found 404)
    modify (λ db. record db {
      assets =
          insert media_id
            (record m {
              audit_status = if approves then AuditStatus.approved else AuditStatus.rejected;
            })
            db.assets;
    })
    audited DomainEventName.media_reviewed "media" media_id approves

-- `_takedown` of a post; a post that is missing is left so.
unfoldable pub taken_down : ℕ → Option CommunityPost → Action CommunityDb (Unit {0})
taken_down post_id none = pure tt
taken_down post_id (some p) = save_post post_id (record p { status = PostStatus.deleted })

unfoldable pub takedown_post : ℕ → Action CommunityDb (Unit {0})
unfolding taken_down
takedown_post post_id = gets (λ db. lookup post_id db.posts) >>= taken_down post_id
