-- ===== src/Matching/Keeping.antt =====
-- What each handler of swipes, matches and blocks keeps of matches: app/modules/match/service.py and
-- app/modules/safety/service.py.
use dating_backend.Prelude.{
  ℕ, ◌≡◌, ◌≢◌, refl, true, false, not, Option, none, some, String, List, [], ◌∷◌, is_some, arith,
  ◌==◌, leb, if◌then◌else◌, Bool-cases, inl, inr,
}
use dating_backend.Shared.Errors.{
  app_error, match_invalid, user_limited, user_not_completed, user_not_found, swipe_duplicate,
  match_limit, match_not_found, block_invalid, block_not_found,
}
use dating_backend.Shared.Action.{pure, ◌>>◌}
use dating_backend.Shared.Action.Keeps.{
  Yields, Keeps, Yields-guard, Yields-or_raise, Yields-bind, Keeps-pure, Keeps-raise,
}
use dating_backend.Shared.Table.{lookup, one_or_none}
use dating_backend.Shared.Pairs.{PairTable, get, put, get-put, rows_of}
use dating_backend.Shared.RateLimit.{Redis}
use dating_backend.Shared.Users.{User, is_limited_user}
use dating_backend.Matching.Data.{
  Swipe, SwipeAction, Match, MatchStatus, MatchDb, is_like, is_active_match, save_swipe, save_match,
}
use dating_backend.Matching.Service.{
  MatchEnv, SwipeResult, ordered_pair, likes, has_key, given_key, find_active_match, match_brief,
  brief_if_any, earlier_swipe, is_available, match_for, create_match, new_match, with_conversation,
  assert_like_allowed, bump_like_count, match_liked, liked, record_swipe, new_swipe, again_or_new,
  swipe, like_limit_for, active_only,
}
use dating_backend.Matching.Ending.{
  unmatch, match_by_id, own_match, ended, cascade_match_blocked, ensure_block, create_block,
  delete_block, not_deleted, block_found,
}
use dating_backend.Matching.Mutual.{
  IsMutual, EndedStays, match_by_id-get, own_match-some, rewritten, swiped, not_matched, matched,
  put_ended, put_new,
}

-- Sound, and with every match ended that was ended before.
pub record Follows {Store : Type 0} (before : PairTable Match) (db : MatchDb Store) : Type 0 where
  pub sound : IsMutual db.swipes db.matches
  pub stays : EndedStays before db.matches

none_of_not_some {ℓ} : {A : Type ℓ} (o : Option A) → is_some o ≡ false → o ≡ none
none_of_not_some none e = refl
none_of_not_some (some a) e = cc

module _ {Store : Type 0} (redis : Redis Store) (env : MatchEnv) (before : PairTable Match) where
  -- A write of a match on top of what was followed.
  written :
      (i j : ℕ) (m : Match) (db : MatchDb Store)
      → Follows before db
      → IsMutual db.swipes (put i j m db.matches)
      → EndedStays db.matches (put i j m db.matches)
      → Follows before (record db { matches = put i j m db.matches })
  written i j m db h sound stays = record {
    sound = sound;
    stays = λ l k e. stays l k (h.stays l k e);
  }

  reading :
      (user : User) (target_id : ℕ) (m : Match)
      → Keeps
          (Follows {Store = Store} before)
          (match_brief user.id (ordered_pair user.id target_id) m)
  unfolding match_brief
  reading user target_id m = record { at = λ db h. h }

  bumped_only :
      (user : User) (db : MatchDb Store)
      → Follows before db
      → Yields
          (λ _. Follows before)
          ((bump_like_count env redis user
              >> pure {A = SwipeResult}
                  (record { recorded = true; matched = false; found_match = none }))
            db)
  unfolding bump_like_count
  bumped_only user db h = record { sound = h.sound; stays = h.stays }

  creating :
      (a b : ℕ) (db : MatchDb Store)
      → Follows before db
      → a ≢ b
      → is_some (get (ordered_pair a b).0 (ordered_pair a b).1 db.matches) ≡ false
      → likes (get a b db.swipes) ≡ true
      → likes (get b a db.swipes) ≡ true
      → Yields (λ _. Follows before) (create_match env a b db)
  unfolding create_match match_for save_match
  creating a b db h ne new one other =
      let pair = ordered_pair a b in
      let m = with_conversation env a b (new_match env db.next_id) in
      rw (none_of_not_some (get pair.0 pair.1 db.matches) new) (record {
        sound = matched db.swipes db.matches a b m h.sound ne one other;
        stays = λ l k e. put_new pair.0 pair.1 m db.matches new l k (h.stays l k e);
      })

  matching :
      (user : User) (target_id : ℕ) (db : MatchDb Store)
      → Follows before db
      → user.id ≢ target_id
      → is_some
          (get (ordered_pair user.id target_id).0 (ordered_pair user.id target_id).1 db.matches)
        ≡ false
      → likes (get user.id target_id db.swipes) ≡ true
      → likes (get target_id user.id db.swipes) ≡ true
      → Yields (λ _. Follows before) (match_liked env redis user target_id db)
  unfolding match_liked bump_like_count
  matching user target_id db h ne new one other =
      Yields-bind (λ _. Follows before) (λ _. Follows before) (create_match env user.id target_id) _
        db (creating user.id target_id db h ne new one other)
        λ m db' h'.
          Yields-bind (λ _. Follows before) (λ _. Follows before)
            (match_brief user.id (ordered_pair user.id target_id) m) _ db'
            ((reading user target_id m).at db' h')
            λ brief db2 h2. record { sound = h2.sound; stays = h2.stays }

  recording :
      (user : User) (target_id : ℕ) (action : SwipeAction) (key : Option String)
      (db : MatchDb Store)
      → Follows before db
      → user.id ≢ target_id
      → get user.id target_id db.swipes ≡ none
      → Yields (λ _. Follows before) (record_swipe env redis user target_id action key db)
  unfolding record_swipe save_swipe liked likes
  recording user target_id action key db h ne new =
      let s : Swipe = record { action = action; idempotency_key = key } in
      let db1 : MatchDb Store = record db { swipes = put user.id target_id s db.swipes } in
      let h1 : Follows before db1 = record {
        sound = swiped db.swipes db.matches h.sound user.id target_id s new;
        stays = h.stays;
      } in
      elim (Bool-cases (is_like action)) [
        | inr skips ↦ rw skips h1
        | inl wants ↦ elim (Bool-cases (likes (get target_id user.id db1.swipes))) [
          | inr alone ↦ rw wants (rw alone (bumped_only user db1 h1))
          | inl back ↦ rw wants (
              rw back (
                matching user target_id db1 h1 ne
                  (not_matched db.swipes db.matches h.sound user.id target_id new)
                  (ground (arith, get-put user.id target_id user.id target_id s db.swipes, wants))
                  back))
        ]
      ]

  new_swipe-Keeps :
      (user : User) (target_id : ℕ) (action : SwipeAction) (key : Option String)
      → user.id ≢ target_id
      → Keeps (Follows before) (new_swipe env redis user target_id action key)
  unfolding new_swipe assert_like_allowed
  new_swipe-Keeps user target_id action key ne = record {
    at = λ db h.
        Yields-guard (λ _. Follows before) (is_some (get user.id target_id db.swipes))
          (app_error swipe_duplicate 409) _ db
          λ fresh.
            let new = none_of_not_some (get user.id target_id db.swipes) fresh in
            elim (Bool-cases (is_like action)) [
              | inr skips ↦ rw skips (recording user target_id action key db h ne new)
              | inl wants ↦ rw wants (
                  Yields-guard (λ _. Follows before)
                    (leb (like_limit_for env user) (redis.count (env.like_key user.id) db.counters))
                    (app_error match_limit 429) _ db
                    λ _. recording user target_id action key db h ne new)
            ];
  }

  finding : (a b : ℕ) → Keeps (Follows {Store = Store} before) (find_active_match a b)
  unfolding find_active_match
  finding a b = record { at = λ db h. h }

  briefing :
      (u : ℕ) (pair : ℕ × ℕ) (o : Option Match)
      → Keeps (Follows {Store = Store} before) (brief_if_any u pair o)
  unfolding brief_if_any match_brief
  briefing u pair none = record { at = λ db h. h }
  briefing u pair (some m) = record { at = λ db h. h }

  again_or_new-Keeps :
      (user : User) (target_id : ℕ) (action : SwipeAction) (key : Option String) (o : Option Swipe)
      → user.id ≢ target_id
      → Keeps (Follows before) (again_or_new env redis user target_id action key o)
  unfolding again_or_new
  again_or_new-Keeps user target_id action key none ne =
      new_swipe-Keeps user target_id action key ne
  again_or_new-Keeps user target_id action key (some row) ne = record {
    at = λ db h.
        Yields-bind (λ _. Follows before) (λ _. Follows before)
          (find_active_match user.id target_id) _ db ((finding user.id target_id).at db h)
          λ found db' h'.
            Yields-bind (λ _. Follows before) (λ _. Follows before)
              (brief_if_any user.id (ordered_pair user.id target_id) found) _ db'
              ((briefing user.id (ordered_pair user.id target_id) found).at db' h') λ _ _ h2. h2;
  }

  choosing : (rs : List Swipe) → Keeps (Follows {Store = Store} before) (one_or_none rs)
  choosing [] = Keeps-pure none
  choosing (v ∷ []) = Keeps-pure (some v)
  choosing (v ∷ w ∷ rs) = Keeps-raise _

  looking :
      (u : ℕ) (key : Option String) → Keeps (Follows {Store = Store} before) (earlier_swipe u key)
  unfolding earlier_swipe
  looking u none = Keeps-pure none
  looking u (some key) = record {
    at = λ db h. (choosing (rows_of (has_key key) u db.swipes)).at db h;
  }

  pub swipe-Keeps :
      (user : User) (target_id : ℕ) (action : SwipeAction) (key : Option String)
      → Keeps (Follows before) (swipe env redis user target_id action key)
  unfolding swipe
  swipe-Keeps user target_id action key = record {
    at = λ db h.
        Yields-guard (λ _. Follows before) (user.id == target_id) (app_error match_invalid 400) _ db
          λ other.
            Yields-guard (λ _. Follows before) (is_limited_user user.status)
              (app_error user_limited 403) _ db
              λ _.
                Yields-guard (λ _. Follows before) (not user.profile_completed)
                  (app_error user_not_completed 400) _ db
                  λ _.
                    Yields-or_raise (λ _. Follows before) (is_available (lookup target_id db.users))
                      (app_error user_not_found 404) _ db
                      λ target e.
                        Yields-bind (λ _. Follows before) (λ _. Follows before)
                          (earlier_swipe user.id (given_key key)) _ db
                          ((looking user.id (given_key key)).at db h)
                          λ earlier db' h'.
                            (again_or_new-Keeps user target_id action key earlier
                                (λ same. ground (arith, same, other))).at
                              db' h';
  }

  module _ (now : ℕ) where
    pub unmatch-Keeps :
        (user : User) (match_id : ℕ)
        → Keeps (Follows {Store = Store} before) (unmatch now user match_id)
    unfolding unmatch save_match ended is_active_match
    unmatch-Keeps user match_id = record {
      at = λ db h.
          Yields-or_raise (λ _. Follows before)
            (own_match user.id (match_by_id match_id db.matches)) (app_error match_not_found 404) _
            db
            λ row e.
              let there =
                match_by_id-get match_id row.0 row.1 row.2 db.matches
                  (own_match-some user.id row.0 row.1 row.2 (match_by_id match_id db.matches) e) in
              let off = ended now MatchStatus.unmatched row.2 in
              written row.0 row.1 off db h
                (rewritten db.swipes db.matches h.sound row.0 row.1 off there)
                (put_ended row.0 row.1 off db.matches refl);
    }

    active_some : (o : Option Match) (m : Match) → active_only o ≡ some m → is_some o ≡ true
    unfolding active_only
    active_some none m e = cc
    active_some (some n) m e = refl

    blocking :
        (pair : ℕ × ℕ) (o : Option Match) (db : MatchDb Store)
        → Follows before db
        → active_only (get pair.0 pair.1 db.matches) ≡ o
        → Yields (λ _. Follows before) (block_found now pair o db)
    unfolding block_found save_match ended is_active_match
    blocking pair none db h e = h
    blocking pair (some m) db h e =
        let off = ended now MatchStatus.blocked m in
        let there = active_some (get pair.0 pair.1 db.matches) m e in
        written pair.0 pair.1 off db h
          (rewritten db.swipes db.matches h.sound pair.0 pair.1 off there)
          (put_ended pair.0 pair.1 off db.matches refl)

    cascade-Keeps :
        (a b : ℕ) → Keeps (Follows {Store = Store} before) (cascade_match_blocked now a b)
    unfolding cascade_match_blocked find_active_match
    cascade-Keeps a b = record {
      at = λ db h.
          blocking (ordered_pair a b)
            (active_only (get (ordered_pair a b).0 (ordered_pair a b).1 db.matches)) db h refl;
    }

    pub create_block-Keeps :
        (user : User) (target_id : ℕ)
        → Keeps (Follows {Store = Store} before) (create_block now user target_id)
    unfolding create_block ensure_block
    create_block-Keeps user target_id = record {
      at = λ db h.
          Yields-guard (λ _. Follows before) (user.id == target_id) (app_error block_invalid 400) _
            db
            λ _.
              Yields-or_raise (λ _. Follows before) (not_deleted (lookup target_id db.users))
                (app_error user_not_found 404) _ db
                λ target e.
                  let db1 : MatchDb Store = record db {
                    blocks =
                        if is_some (get user.id target_id db.blocks)
                        then db.blocks
                        else put user.id target_id tt db.blocks;
                  } in
                  let h1 : Follows before db1 = record { sound = h.sound; stays = h.stays } in
                  Yields-bind (λ _. Follows before) (λ _. Follows before)
                    (cascade_match_blocked now user.id target_id) _ db1
                    ((cascade-Keeps user.id target_id).at db1 h1) λ _ _ h2. h2;
    }

    pub delete_block-Keeps :
        (user : User) (target_id : ℕ)
        → Keeps (Follows {Store = Store} before) (delete_block now user target_id)
    unfolding delete_block
    delete_block-Keeps user target_id = record {
      at = λ db h.
          Yields-or_raise (λ _. Follows before) (get user.id target_id db.blocks)
            (app_error block_not_found 404) _ db λ _ _. record { sound = h.sound; stays = h.stays };
    }
