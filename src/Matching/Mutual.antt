-- ===== src/Matching/Mutual.antt =====
-- A match is of two users who like each other, and a match that has ended stays ended.
use dating_backend.Prelude.{
  ℕ, ◌<◌, ◌≡◌, ◌≢◌, Bool, true, false, ◌&&◌, not, Option, none, some, [], ◌∷◌, is_some, arith, ◌==◌,
  Bool-cases, inl, inr,
}
use dating_backend.Shared.Pairs.{PairTable, get, put, get-put}
use dating_backend.Matching.Data.{Swipe, Match, is_active_match}
use dating_backend.Matching.Service.{likes, ordered_pair}
use dating_backend.Matching.Ending.{match_by_id, own_match}

-- Whoever is matched likes the other, and a match is stored under its lower user first.
pub record IsMutual (swipes : PairTable Swipe) (matches : PairTable Match) : Type 0 where
  pub mutual_likes :
      (l h : ℕ)
      → is_some (get l h matches) ≡ true
      → (l < h) × (likes (get l h swipes) ≡ true) × (likes (get h l swipes) ≡ true)

-- A match that is no longer active.
unfoldable pub is_ended : Option Match → Bool
is_ended none = false
is_ended (some m) = not (is_active_match m.status)

abbrev pub EndedStays : PairTable Match → PairTable Match → Type 0
EndedStays before after =
    (l h : ℕ) → is_ended (get l h before) ≡ true → is_ended (get l h after) ≡ true

pub match_by_id-get :
    (id l h : ℕ) (m : Match) (t : PairTable Match)
    → match_by_id id t ≡ some (l, h, m)
    → is_some (get l h t) ≡ true
unfolding match_by_id get
match_by_id-get id l h m [] e = cc
match_by_id-get id l h m ((i, j, n) ∷ t) e = ground (arith, match_by_id-get id l h m t)

pub own_match-some :
    (u l h : ℕ) (m : Match) (o : Option (ℕ × ℕ × Match))
    → own_match u o ≡ some (l, h, m)
    → o ≡ some (l, h, m)
unfolding own_match
own_match-some u l h m none e = cc
own_match-some u l h m (some (i, j, n)) e = ground (arith, e)

module _ (swipes : PairTable Swipe) (matches : PairTable Match) (h : IsMutual swipes matches) where
  -- A match that is there already is written again.
  pub rewritten :
      (i j : ℕ) (m : Match) → is_some (get i j matches) ≡ true → IsMutual swipes (put i j m matches)
  rewritten i j m there = record {
    mutual_likes =
        λ l k e. h.mutual_likes l k (ground (arith, get-put i j l k m matches, there, e));
  }

  -- A new swipe.
  pub swiped : (a b : ℕ) (s : Swipe) → get a b swipes ≡ none → IsMutual (put a b s swipes) matches
  unfolding likes
  swiped a b s new = record {
    mutual_likes = λ l k e.
        let (lt, there, back) = h.mutual_likes l k e in
        (
          lt,
          ground (arith, get-put a b l k s swipes, new, there),
          ground (arith, get-put a b k l s swipes, new, back),
        );
  }

  -- Of two users of whom one has not swiped the other, no match is stored.
  pub not_matched :
      (a b : ℕ)
      → get a b swipes ≡ none
      → is_some (get (ordered_pair a b).0 (ordered_pair a b).1 matches) ≡ false
  unfolding ordered_pair likes
  not_matched a b new =
      elim (Bool-cases (is_some (get (ordered_pair a b).0 (ordered_pair a b).1 matches))) [
        | inr none_there ↦ none_there
        | inl there ↦
            let (_, one, other) = h.mutual_likes (ordered_pair a b).0 (ordered_pair a b).1 there in
            absurd (ground (arith, one, other, new))
      ]

-- A new match of two users who like each other.
pub matched :
    (swipes : PairTable Swipe) (matches : PairTable Match) (a b : ℕ) (m : Match)
    → IsMutual swipes matches
    → a ≢ b
    → likes (get a b swipes) ≡ true
    → likes (get b a swipes) ≡ true
    → IsMutual swipes (put (ordered_pair a b).0 (ordered_pair a b).1 m matches)
unfolding ordered_pair
matched swipes matches a b m h ne one other = record {
  mutual_likes = λ l k e.
      elim (Bool-cases ((ordered_pair a b).0 == l && (ordered_pair a b).1 == k)) [
        | inl this ↦ ground (arith, this, ne, one, other)
        | inr that ↦ h.mutual_likes l k (
            ground
              (arith, get-put (ordered_pair a b).0 (ordered_pair a b).1 l k m matches, that, e))
      ];
}

-- Neither a match that is written as ended, nor a new one, revives an ended match.
pub put_ended :
    (i j : ℕ) (m : Match) (matches : PairTable Match)
    → is_active_match m.status ≡ false
    → EndedStays matches (put i j m matches)
unfolding is_ended
put_ended i j m matches off l k e = ground (arith, get-put i j l k m matches, off, e)

pub put_new :
    (i j : ℕ) (m : Match) (matches : PairTable Match)
    → is_some (get i j matches) ≡ false
    → EndedStays matches (put i j m matches)
unfolding is_ended
put_new i j m matches new l k e = ground (arith, get-put i j l k m matches, new, e)
