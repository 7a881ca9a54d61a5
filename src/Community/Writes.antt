-- ===== src/Community/Writes.antt =====
-- Likes, bookmarks and reposts keep the counters of posts.
use dating_backend.Prelude.{ℕ, ◌≡◌, refl, Option, none, some, arith, String, ◌∙◌, sym}
use dating_backend.Shared.Errors.{app_error, community_not_found}
use dating_backend.Shared.Action.{Action, ◌>>=◌}
use dating_backend.Shared.Action.Keeps.{Yields, Keeps, Yields-or_raise}
use dating_backend.Shared.Table.{lookup}
use dating_backend.Shared.Pairs.{get}
use dating_backend.Community.Data.{CommunityPost, CommunityDb, save_post}
use dating_backend.Community.Service.{
  published_post, get_published_post, like_once, like, unlike_once, unlike, bookmark_once, bookmark,
  unbookmark_once, unbookmark, repost_once, repost, collection_of, quoted,
}
use dating_backend.Community.Counts.{
  HasCounts, counts, tally, rows_of_post, comments_of, post_written, same_tally, rows-put_other,
  rows-put_new, rows-put_old, rows-drop_other, rows-drop_one,
}

published_found :
    (o : Option CommunityPost) (p : CommunityPost) → published_post o ≡ some p → o ≡ some p
unfolding published_post
published_found none p e = cc
published_found (some q) p e = ground (arith, e)

-- A handler on a published post.
pub on_post :
    {A : Type 0} (post_id : ℕ) (f : CommunityPost → Action CommunityDb A) (db : CommunityDb)
    → ((p : CommunityPost) → lookup post_id db.posts ≡ some p → Yields (λ _. HasCounts) (f p db))
    → Yields (λ _. HasCounts) ((get_published_post post_id >>= f) db)
unfolding get_published_post
on_post post_id f db k =
    Yields-or_raise (λ _. HasCounts) (published_post (lookup post_id db.posts))
      (app_error community_not_found 404) f db
      λ p e. k p (published_found (lookup post_id db.posts) p e)

module _ (db : CommunityDb) (h : HasCounts db) (k : ℕ) (p : CommunityPost)
    (found : lookup k db.posts ≡ some p) where
  pub was_likes : p.like_count ≡ rows_of_post k db.likes
  unfolding counts tally
  was_likes = λ i. (h.counted k p found i).likes

  pub was_comments : p.comment_count ≡ comments_of k db.comments
  unfolding counts tally
  was_comments = λ i. (h.counted k p found i).comments

  pub was_bookmarks : p.bookmark_count ≡ rows_of_post k db.bookmarks
  unfolding counts tally
  was_bookmarks = λ i. (h.counted k p found i).bookmarks

  pub was_reposts : p.repost_count ≡ rows_of_post k db.reposts
  unfolding counts tally
  was_reposts = λ i. (h.counted k p found i).reposts

  liked :
      (u : ℕ) (o : Option (Unit {0}))
      → get k u db.likes ≡ o
      → Yields (λ _. HasCounts) (like_once k u p o db)
  unfolding like_once save_post counts tally
  liked u (some _) e = h
  liked u none e =
      post_written db _ k _ h refl (ground arith) (h.used k p found)
        (same_tally _ _ (ground (arith, was_likes, rows-put_new k u tt db.likes e)) was_comments
          was_bookmarks was_reposts)
        λ j ne. same_tally _ _ (rows-put_other k u tt db.likes j ne) refl refl refl

  unliked :
      (u : ℕ) (o : Option (Unit {0}))
      → get k u db.likes ≡ o
      → Yields (λ _. HasCounts) (unlike_once k u p o db)
  unfolding unlike_once save_post counts tally
  unliked u none e = h
  unliked u (some w) e =
      post_written db _ k _ h refl (ground arith) (h.used k p found)
        (same_tally _ _ (ground (arith, was_likes, rows-drop_one k u db.likes w e)) was_comments
          was_bookmarks was_reposts)
        λ j ne. same_tally _ _ (rows-drop_other k u db.likes j ne) refl refl refl

  marked :
      (u : ℕ) (name : String) (o : Option String)
      → get k u db.bookmarks ≡ o
      → Yields (λ _. HasCounts) (bookmark_once k u name p o db)
  unfolding bookmark_once save_post counts tally
  marked u name (some w) e = record {
    counted = λ j b at.
        h.counted j b at
        ∙ same_tally _ _ refl refl (sym (rows-put_old k u _ db.bookmarks w e j)) refl;
    used = h.used;
    unused = λ j past.
        same_tally _ _ refl refl (rows-put_old k u _ db.bookmarks w e j) refl ∙ h.unused j past;
  }
  marked u name none e =
      post_written db _ k _ h refl (ground arith) (h.used k p found)
        (same_tally _ _ was_likes was_comments
          (ground (arith, was_bookmarks, rows-put_new k u (collection_of name) db.bookmarks e))
          was_reposts)
        λ j ne. same_tally _ _ refl refl (rows-put_other k u _ db.bookmarks j ne) refl

  unmarked :
      (u : ℕ) (o : Option String)
      → get k u db.bookmarks ≡ o
      → Yields (λ _. HasCounts) (unbookmark_once k u p o db)
  unfolding unbookmark_once save_post counts tally
  unmarked u none e = h
  unmarked u (some w) e =
      post_written db _ k _ h refl (ground arith) (h.used k p found)
        (same_tally _ _ was_likes was_comments
          (ground (arith, was_bookmarks, rows-drop_one k u db.bookmarks w e)) was_reposts)
        λ j ne. same_tally _ _ refl refl (rows-drop_other k u db.bookmarks j ne) refl

  reposted :
      (u : ℕ) (quote : Option String) (o : Option (Option String))
      → get k u db.reposts ≡ o
      → Yields (λ _. HasCounts) (repost_once k u quote p o db)
  unfolding repost_once save_post counts tally
  reposted u quote (some w) e = h
  reposted u quote none e =
      post_written db _ k _ h refl (ground arith) (h.used k p found)
        (same_tally _ _ was_likes was_comments was_bookmarks
          (ground (arith, was_reposts, rows-put_new k u (quoted quote) db.reposts e)))
        λ j ne. same_tally _ _ refl refl refl (rows-put_other k u _ db.reposts j ne)

pub like-Keeps : (u post_id : ℕ) → Keeps HasCounts (like u post_id)
unfolding like
like-Keeps u post_id = record {
  at = λ db h. on_post post_id _ db λ p found. liked db h post_id p found u _ refl;
}

pub unlike-Keeps : (u post_id : ℕ) → Keeps HasCounts (unlike u post_id)
unfolding unlike
unlike-Keeps u post_id = record {
  at = λ db h. on_post post_id _ db λ p found. unliked db h post_id p found u _ refl;
}

pub bookmark-Keeps : (u post_id : ℕ) (name : String) → Keeps HasCounts (bookmark u post_id name)
unfolding bookmark
bookmark-Keeps u post_id name = record {
  at = λ db h. on_post post_id _ db λ p found. marked db h post_id p found u name _ refl;
}

pub unbookmark-Keeps : (u post_id : ℕ) → Keeps HasCounts (unbookmark u post_id)
unfolding unbookmark
unbookmark-Keeps u post_id = record {
  at = λ db h. on_post post_id _ db λ p found. unmarked db h post_id p found u _ refl;
}

pub repost-Keeps :
    (u post_id : ℕ) (quote : Option String) → Keeps HasCounts (repost u post_id quote)
unfolding repost
repost-Keeps u post_id quote = record {
  at = λ db h. on_post post_id _ db λ p found. reposted db h post_id p found u quote _ refl;
}
