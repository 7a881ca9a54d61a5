-- ===== src/Community/Authoring.antt =====
-- Comments, posts and the console's reviews keep the counters of posts.
use dating_backend.Prelude.{
  ℕ, ◌≡◌, refl, not, Option, none, some, List, [], ◌∷◌, arith, ◌==◌, String, ◌∙◌, sym, Bool,
}
use dating_backend.Shared.Errors.{
  app_error, user_limited, user_not_completed, community_not_found, community_forbidden,
}
use dating_backend.Shared.Action.Keeps.{
  Yields, Keeps, Yields-guard, Yields-or_raise, Yields-bind, Keeps-bind, Keeps-pure, keeps_rules,
}
use dating_backend.Shared.Table.{lookup}
use dating_backend.Shared.Users.{User, is_limited_user}
use dating_backend.Community.Data.{
  CommunityPost, CommunityComment, CommunityDb, next_number, save_post,
}
use dating_backend.Community.Service.{
  MediaItem, media_of, normalize_media, new_post, create_post, not_deleted_post, delete_post,
  add_comment,
}
use dating_backend.Shared.Errors.{moderation_invalid, moderation_not_found}
use dating_backend.Events.{DomainEventName, enqueue}
use dating_backend.Community.Console.{
  Review, audited, reviewed_post, review_post, review_media, taken_down, takedown_post,
  is_pending_post,
}
use dating_backend.Community.Counts.{
  HasCounts, counts, tally, comments_of-snoc, post_written, same_tally,
}
use dating_backend.Community.Writes.{on_post, was_likes, was_comments, was_bookmarks, was_reposts}

pub comment-Keeps :
    (user : User) (post_id : ℕ) (content : String)
    → Keeps HasCounts (add_comment user post_id content)
unfolding add_comment next_number save_post counts tally
comment-Keeps user post_id content = record {
  at = λ db h.
      Yields-guard (λ _. HasCounts) (is_limited_user user.status) (app_error user_limited 403) _ db
        λ _. on_post post_id _ db λ p found.
          let c : CommunityComment = record {
            id = db.next_id;
            post_id = post_id;
            author_id = user.id;
            content = content;
          } in
          post_written db _ post_id _ h refl (ground arith) (ground (arith, h.used post_id p found))
            (same_tally _ _ (was_likes db h post_id p found)
              (ground
                (arith, was_comments db h post_id p found, comments_of-snoc post_id db.comments c))
              (was_bookmarks db h post_id p found) (was_reposts db h post_id p found))
            λ j ne.
              same_tally _ _ refl (ground (arith, ne, comments_of-snoc j db.comments c)) refl refl;
}

deleted_found :
    (o : Option CommunityPost) (p : CommunityPost) → not_deleted_post o ≡ some p → o ≡ some p
unfolding not_deleted_post
deleted_found none p e = cc
deleted_found (some q) p e = ground (arith, e)

pub delete-Keeps : (u post_id : ℕ) → Keeps HasCounts (delete_post u post_id)
unfolding delete_post save_post counts tally
delete-Keeps u post_id = record {
  at = λ db h.
      Yields-or_raise (λ _. HasCounts) (not_deleted_post (lookup post_id db.posts))
        (app_error community_not_found 404) _ db
        λ p e.
          let found = deleted_found (lookup post_id db.posts) p e in
          Yields-guard (λ _. HasCounts) (not (p.author_id == u)) (app_error community_forbidden 403)
            _ db
            λ _.
              post_written db _ post_id _ h refl (ground arith) (h.used post_id p found)
                (h.counted post_id p found) λ j ne. refl;
}

audited-Keeps :
    (review : Review) (name : DomainEventName) (target : String) (id : ℕ) (approves : Bool)
    → Keeps HasCounts (audited review name target id approves)
unfolding audited enqueue tally
audited-Keeps review name target id approves = record {
  at = λ db h. record { counted = h.counted; used = h.used; unused = h.unused };
}

save-HasCounts :
    (db : CommunityDb) (k : ℕ) (p p' : CommunityPost)
    → HasCounts db
    → lookup k db.posts ≡ some p
    → counts p' ≡ counts p
    → Yields (λ _. HasCounts) (save_post k p' db)
unfolding save_post tally
save-HasCounts db k p p' h found same =
    post_written db _ k p' h refl (ground arith) (h.used k p found) (same ∙ h.counted k p found)
      λ j ne. refl

pub review_post-Keeps :
    (review : Review) (post_id : ℕ) → Keeps HasCounts (review_post review post_id)
unfolding review_post reviewed_post counts
review_post-Keeps review post_id = record {
  at = λ db h.
      Yields-or_raise (λ _. HasCounts) review.approves (app_error moderation_invalid 400) _ db
        λ approves _.
          Yields-or_raise (λ _. HasCounts) (not_deleted_post (lookup post_id db.posts))
            (app_error community_not_found 404) _ db
            λ p e.
              Yields-guard (λ _. HasCounts) (not (is_pending_post p.status))
                (app_error moderation_invalid 409) _ db
                λ _.
                  Yields-bind (λ _. HasCounts) (λ _. HasCounts)
                    (save_post post_id (reviewed_post review approves p)) _ db
                    (save-HasCounts db post_id p _ h (deleted_found (lookup post_id db.posts) p e)
                      refl)
                    λ _ db' h'. (audited-Keeps review _ _ post_id approves).at db' h';
}

pub review_media-Keeps :
    (review : Review) (media_id : ℕ) → Keeps HasCounts (review_media review media_id)
unfolding review_media tally
review_media-Keeps review media_id = record {
  at = λ db h.
      Yields-or_raise (λ _. HasCounts) review.approves (app_error moderation_invalid 400) _ db
        λ approves _.
          Yields-or_raise (λ _. HasCounts) (lookup media_id db.assets)
            (app_error moderation_not_found 404) _ db
            λ m _.
              (audited-Keeps review _ _ media_id approves).at _
                (record { counted = h.counted; used = h.used; unused = h.unused });
}

taken-HasCounts :
    (db : CommunityDb) (k : ℕ) (o : Option CommunityPost)
    → HasCounts db
    → lookup k db.posts ≡ o
    → Yields (λ _. HasCounts) (taken_down k o db)
unfolding taken_down counts
taken-HasCounts db k none h e = h
taken-HasCounts db k (some p) h e = save-HasCounts db k p _ h e refl

pub takedown-Keeps : (post_id : ℕ) → Keeps HasCounts (takedown_post post_id)
unfolding takedown_post
takedown-Keeps post_id = record { at = λ db h. taken-HasCounts db post_id _ h refl }

module _ (stored_url : String → String) where
  media-Keeps :
      (u : ℕ) (kind url : String) (media_id : Option ℕ)
      → Keeps HasCounts (media_of stored_url u kind url media_id)
  unfolding media_of
  media-Keeps u kind url none = search keeps_rules depth 12
  media-Keeps u kind url (some media_id) = search keeps_rules depth 12

  all_media-Keeps :
      (u : ℕ) (items : List MediaItem) → Keeps HasCounts (normalize_media stored_url u items)
  unfolding normalize_media
  all_media-Keeps u [] = Keeps-pure []
  all_media-Keeps u (i ∷ is) =
      Keeps-bind _ _ (media-Keeps u i.kind i.url i.media_id)
        λ m. Keeps-bind _ _ (all_media-Keeps u is) λ ms. Keeps-pure (m ∷ ms)

  pub create-Keeps :
      (user : User) (content : String) (items : List MediaItem)
      → Keeps HasCounts (create_post stored_url user content items)
  unfolding create_post next_number save_post new_post counts tally
  create-Keeps user content items = record {
    at = λ db h.
        Yields-guard (λ _. HasCounts) (is_limited_user user.status) (app_error user_limited 403) _
          db
          λ _.
            Yields-guard (λ _. HasCounts) (not user.profile_completed)
              (app_error user_not_completed 400) _ db
              λ _.
                Yields-bind (λ _. HasCounts) (λ _. HasCounts)
                  (normalize_media stored_url user.id items) _ db
                  ((all_media-Keeps user.id items).at db h)
                  λ media db' h'.
                    post_written db' _ db'.next_id _ h' refl (ground arith) (ground arith)
                      (sym (h'.unused db'.next_id (ground arith))) λ j ne. refl;
  }
