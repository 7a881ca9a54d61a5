-- ===== src/Community/Counts.antt =====
-- The counters of a post count its rows.
use dating_backend.Prelude.{
  ℕ, ◌+◌, ◌-◌, ◌≤◌, ◌≡◌, ◌≢◌, true, none, some, List, [], ◌∷◌, ◌++◌, arith, ◌==◌, if◌then◌else◌,
  Bool-cases, inl, inr, ==_iff, sym, suc, ◌∙◌,
}
use dating_backend.Shared.Table.{lookup, insert, lookup-insert}
use dating_backend.Shared.Pairs.{
  PairTable, get, put, drop_one, count_of, count_of-put, count_of-drop_one,
}
use dating_backend.Community.Data.{CommunityPost, CommunityComment, CommunityDb}

-- How many rows a post has.
unfoldable pub rows_of_post : {V : Type 0} → ℕ → PairTable V → ℕ
rows_of_post k t = count_of (λ _. true) k t

unfoldable pub comments_of : ℕ → List CommunityComment → ℕ
comments_of k [] = 0
comments_of k (c ∷ cs) = (if c.post_id == k then 1 else 0) + comments_of k cs

pub comments_of-snoc :
    (k : ℕ) (cs : List CommunityComment) (c : CommunityComment)
    → comments_of k (cs ++ (c ∷ [])) ≡ comments_of k cs + (if c.post_id == k then 1 else 0)
unfolding comments_of
comments_of-snoc k [] c = ground arith
comments_of-snoc k (d ∷ cs) c = ground (arith, comments_of-snoc k cs c)

-- The counts of a post, and what its rows add up to.
pub record Tally : Type 0 where
  pub likes : ℕ
  pub comments : ℕ
  pub bookmarks : ℕ
  pub reposts : ℕ

unfoldable pub counts : CommunityPost → Tally
counts p = record {
  likes = p.like_count;
  comments = p.comment_count;
  bookmarks = p.bookmark_count;
  reposts = p.repost_count;
}

unfoldable pub tally : ℕ → CommunityDb → Tally
tally k db = record {
  likes = rows_of_post k db.likes;
  comments = comments_of k db.comments;
  bookmarks = rows_of_post k db.bookmarks;
  reposts = rows_of_post k db.reposts;
}

abbrev pub nothing : Tally
nothing = record { likes = 0; comments = 0; bookmarks = 0; reposts = 0 }

pub record HasCounts (db : CommunityDb) : Type 0 where
  pub counted : (k : ℕ) (p : CommunityPost) → lookup k db.posts ≡ some p → counts p ≡ tally k db
  pub used : (k : ℕ) (p : CommunityPost) → lookup k db.posts ≡ some p → suc k ≤ db.next_id
  pub unused : (k : ℕ) → db.next_id ≤ k → tally k db ≡ nothing

-- A post is written, and its rows with it; the rows of the others are as before.
pub post_written :
    (db db' : CommunityDb) (k : ℕ) (p' : CommunityPost)
    → HasCounts db
    → db'.posts ≡ insert k p' db.posts
    → db.next_id ≤ db'.next_id
    → suc k ≤ db'.next_id
    → counts p' ≡ tally k db'
    → ((j : ℕ) → j ≢ k → tally j db' ≡ tally j db)
    → HasCounts db'
post_written db db' k p' h posts later below now same = record {
  counted = λ j b e. elim (Bool-cases (k == j)) [
    | inl this ↦
        let at : k ≡ j = (==_iff k j).0 this in
        let is_p : p' ≡ b = ground (arith, posts, lookup-insert k j p' db.posts, this, e) in
        rw (sym at, sym is_p) now
    | inr other ↦
        let ne : j ≢ k = λ at. ground (arith, other) in
        h.counted j b (ground (arith, posts, lookup-insert k j p' db.posts, other, e))
        ∙ sym (same j ne)
  ];
  used = λ j b e. elim (Bool-cases (k == j)) [
    | inl this ↦ ground (arith, this, below)
    | inr other ↦
        ground (
          arith,
          later,
          h.used j b (ground (arith, posts, lookup-insert k j p' db.posts, other, e)),
        )
  ];
  unused = λ j past.
      let ne : j ≢ k = λ at. ground (arith, past, below, at) in
      same j ne ∙ h.unused j (ground (arith, past, later));
}

-- Tallies are equal where their counts are.
pub same_tally :
    (a b : Tally)
    → a.likes ≡ b.likes
    → a.comments ≡ b.comments
    → a.bookmarks ≡ b.bookmarks
    → a.reposts ≡ b.reposts
    → a ≡ b
same_tally a b l c m r = λ i. record { likes = l i; comments = c i; bookmarks = m i; reposts = r i }

module _ {V : Type 0} (k u : ℕ) (v : V) (t : PairTable V) where
  pub rows-put_other : (j : ℕ) → j ≢ k → rows_of_post j (put k u v t) ≡ rows_of_post j t
  unfolding rows_of_post
  rows-put_other j ne = ground (arith, ne, count_of-put (λ _. true) j k u v t)

  pub rows-put_new : get k u t ≡ none → rows_of_post k (put k u v t) ≡ rows_of_post k t + 1
  unfolding rows_of_post
  rows-put_new e = ground (arith, e, count_of-put (λ _. true) k k u v t)

  pub rows-put_old :
      (w : V) → get k u t ≡ some w → (j : ℕ) → rows_of_post j (put k u v t) ≡ rows_of_post j t
  unfolding rows_of_post
  rows-put_old w e j = ground (arith, e, count_of-put (λ _. true) j k u v t)

module _ {V : Type 0} (k u : ℕ) (t : PairTable V) where
  pub rows-drop_other : (j : ℕ) → j ≢ k → rows_of_post j (drop_one k u t) ≡ rows_of_post j t
  unfolding rows_of_post
  rows-drop_other j ne = ground (arith, ne, count_of-drop_one (λ _. true) j k u t)

  pub rows-drop_one :
      (w : V) → get k u t ≡ some w → rows_of_post k (drop_one k u t) ≡ rows_of_post k t - 1
  unfolding rows_of_post
  rows-drop_one w e = ground (arith, e, count_of-drop_one (λ _. true) k k u t)
