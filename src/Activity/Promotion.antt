-- ===== src/Activity/Promotion.antt =====
-- Promotion from the waitlist takes free seats only, in the order of waiting, and keeps the count.
use dating_backend.Prelude.{
  ℕ, suc, zero, ◌+◌, ◌-◌, ◌≤◌, ◌≡◌, ◌≢◌, refl, true, none, some, List, [], ◌∷◌, ltb, arith,
  Bool-cases, inl, inr, Option-cases, length, ◌⊎◌, max,
}
use dating_backend.Shared.Action.{committed, pure}
use dating_backend.Shared.Action.Keeps.{Returns, Returns-bind}
use dating_backend.Shared.Table.{lookup, insert, lookup-insert, lookup-insert_at}
use dating_backend.Events.{enqueue}
use dating_backend.Activity.Data.{
  Activity, ActivityDb, ActivityParticipant, is_joined, is_waitlisted, participant, put, save_row,
  save_activity, announce,
}
use dating_backend.Activity.Rows.{seat_found, IsUnique}
use dating_backend.Activity.Participation.{
  ActivityEnv, waits, next_waitlisted, promoted_row, one_more, promote_one, promote_turns,
  promote_waitlist,
}
use dating_backend.Activity.Seats.{IsSeated, IsSeatedIn, IsHosted, rewritten}

module _ (env : ActivityEnv) (k : ℕ) where
  next_waits :
      (rows : List ActivityParticipant) (row : ActivityParticipant)
      → next_waitlisted env k rows ≡ some row
      → waits env k row ≡ true
  unfolding next_waitlisted
  next_waits [] row e = cc
  next_waits (r ∷ rows) row e = ground (arith, next_waits rows row)

  next_found :
      (rows : List ActivityParticipant) (row : ActivityParticipant)
      → IsUnique rows
      → next_waitlisted env k rows ≡ some row
      → participant row.activity_id row.user_id rows ≡ some row
  unfolding next_waitlisted participant
  next_found [] row u e = cc
  next_found (r ∷ rows) row (new, u) e = ground (arith, next_found rows row u)

module _ (env : ActivityEnv) where
  -- The tables after one turn.
  abbrev turned : Activity → ActivityParticipant → ActivityDb → ActivityDb
  turned a row db = (committed (promote_one env a row db) db)

  -- A row that waits is not the host's, and has no seat.
  not_the_host :
      (a : Activity) (row : ActivityParticipant) (rows : List ActivityParticipant)
      → IsHosted a.id a rows
      → waits env a.id row ≡ true
      → participant row.activity_id row.user_id rows ≡ some row
      → row.user_id ≢ a.host_id
  unfolding waits seat_found is_joined is_waitlisted
  not_the_host a row rows h w found at = ground (arith, w, found, h.hosted, at)

  promote_step :
      (a : Activity) (row : ActivityParticipant) (db : ActivityDb)
      → IsSeated db
      → lookup a.id db.activities ≡ some a
      → next_waitlisted env a.id db.participants ≡ some row
      → IsSeatedIn
          (insert a.id (one_more a) db.activities)
          (put (promoted_row row) db.participants)
          db.next_id
  unfolding one_more promoted_row waits seat_found is_joined is_waitlisted
  promote_step a row db h found next =
      let w = next_waits env a.id db.participants row next in
      let at = next_found env a.id db.participants row h.unique next in
      let of_k : row.activity_id ≡ a.id = ground (arith, w) in
      rewritten db.activities (insert a.id (one_more a) db.activities) db.participants db.next_id
        a.id a (one_more a) (promoted_row row) h found
        (λ j. lookup-insert a.id j (one_more a) db.activities) refl refl of_k
        (not_the_host a row db.participants (h.seated a.id a found) w at) ground
        (arith, w, at, of_k)

  -- What the loop leaves, when it started with `db` and `a` and promoted `users`.
  pub record IsPromoted (a : Activity) (users : List ℕ) (a' : Activity) (db' : ActivityDb)
      : Type 0 where
    pub sound : IsSeated db'
    pub kept : lookup a.id db'.activities ≡ some a'
    pub same : a'.id ≡ a.id
    pub grown : a'.join_count ≡ a.join_count + length users
    pub bounded : a'.join_count ≤ max a.join_count a.capacity
    pub full : (a.capacity ≤ a'.join_count) ⊎ (next_waitlisted env a.id db'.participants ≡ none)

  nobody_waits :
      (a : Activity) (db : ActivityDb)
      → IsSeated db
      → lookup a.id db.activities ≡ some a
      → (a.capacity ≤ a.join_count) ⊎ (next_waitlisted env a.id db.participants ≡ none)
      → IsPromoted a [] a db
  nobody_waits a db h found stop = record {
    sound = h;
    kept = found;
    same = refl;
    grown = ground arith;
    bounded = ground arith;
    full = stop;
  }

  one_turn_more :
      (a : Activity) (u : ℕ) (users : List ℕ) (a' : Activity) (db' : ActivityDb)
      → (a.join_count + 1) ≤ a.capacity
      → IsPromoted (one_more a) users a' db'
      → IsPromoted a (u ∷ users) a' db'
  unfolding one_more
  one_turn_more a u users a' db' free h = record {
    sound = h.sound;
    kept = h.kept;
    same = h.same;
    grown = ground (arith, h.grown);
    bounded = ground (arith, h.bounded);
    full = h.full;
  }

  turns-IsPromoted :
      (fuel : ℕ) (a : Activity) (db : ActivityDb)
      → a.capacity - a.join_count ≤ fuel
      → IsSeated db
      → lookup a.id db.activities ≡ some a
      → Returns (λ r db'. IsPromoted a r.0 r.1 db') (promote_turns env fuel a db)
  unfolding promote_turns promote_one save_row save_activity announce one_more committed insert put
      enqueue
  turns-IsPromoted zero a db enough h found = nobody_waits a db h found (inl (omega arith))
  turns-IsPromoted (suc fuel) a db enough h found =
      elim (Bool-cases (ltb a.join_count a.capacity)) [
        | inr over ↦ rw (over, Returns) (nobody_waits a db h found (inl (ground (arith, over))))
        | inl free ↦ elim (Option-cases (next_waitlisted env a.id db.participants)) [
          | inl nobody ↦
              rw (free, Returns) (rw (nobody, Returns) (nobody_waits a db h found (inr nobody)))
          | inr (row, next) ↦
              rw (free, Returns)
                (rw (next, Returns)
                  (Returns-bind (λ r db'. IsPromoted (one_more a) r.0 r.1 db')
                    (λ r db'. IsPromoted a r.0 r.1 db') (promote_turns env fuel (one_more a))
                    (λ r. pure (row.user_id ∷ r.0, r.1)) (turned a row db)
                    (turns-IsPromoted fuel (one_more a) (turned a row db) (ground arith)
                      (promote_step a row db h found next)
                      (lookup-insert_at a.id a.id (one_more a) db.activities refl))
                    λ r db' p. one_turn_more a row.user_id r.0 r.1 db' (ground (arith, free)) p))
        ]
      ]

  -- The loop ends. It keeps the count, fills free seats only, counts up by the users it promotes, and
  -- stops when the activity is full or nobody whom it may promote is waiting.
  pub promote_waitlist-IsPromoted :
      (a : Activity) (db : ActivityDb)
      → IsSeated db
      → lookup a.id db.activities ≡ some a
      → Returns (λ r db'. IsPromoted a r.0 r.1 db') (promote_waitlist env a db)
  unfolding promote_waitlist
  promote_waitlist-IsPromoted a db h found =
      turns-IsPromoted (a.capacity - a.join_count) a db (omega arith) h found
