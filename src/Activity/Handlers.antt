-- ===== src/Activity/Handlers.antt =====
-- Every handler keeps `join_count` equal to the number of joined participants.
use dating_backend.Prelude.{
  ℕ, ◌≡◌, ◌≢◌, refl, String, true, false, Option, none, some, List, ◌==◌, not, ◌&&◌, leb, arith,
  Bool-cases, inl, inr, Option-cases, sym,
}
use text.Mathlib.Text.{◌==◌ as str_eq}
use dating_backend.Shared.Errors.{
  app_error, user_limited, activity_forbidden, activity_full, activity_not_found, validation_error,
}
use dating_backend.Shared.Action.{◌>>=◌, pure}
use dating_backend.Shared.Action.Keeps.{
  Yields, Keeps, Yields-guard, Yields-bind, Yields-or_raise, Yields-of-Returns,
}
use dating_backend.Shared.Table.{lookup, insert, lookup-insert, lookup-insert_at}
use dating_backend.Events.{enqueue}
use dating_backend.Activity.Data.{
  Activity, ActivityDb, ActivityParticipant, is_joined, is_waitlisted, participant, put, save_row,
  save_activity, announce,
}
use dating_backend.Activity.Rows.{seat_of, seat_found, participant-key, seats-two}
use dating_backend.Activity.Participation.{
  Caller, ActivityEnv, published_only, not_cancelled, one_more, one_less, quit_row, joined_row,
  has_joined, take_seat, join, lock_activity, get_uncancelled, give_up_seat, quit_found, quit,
  promote_waitlist,
}
use dating_backend.Activity.Seats.{IsSeated, IsSeatedIn, IsHosted, rewritten}
use dating_backend.Activity.Promotion.{IsPromoted, promote_waitlist-IsPromoted}

pub published_found : (o : Option Activity) (a : Activity) → published_only o ≡ some a → o ≡ some a
unfolding published_only
published_found none a e = cc
published_found (some b) a e = ground (arith, e)

pub uncancelled_found : (o : Option Activity) (a : Activity) → not_cancelled o ≡ some a → o ≡ some a
unfolding not_cancelled
uncancelled_found none a e = cc
uncancelled_found (some b) a e = ground (arith, e)

-- A row of the activity `a` written where the count stays.
module _ (db : ActivityDb) (a : Activity) (row : ActivityParticipant) where
  pub waitlist_write :
      IsSeated db
      → lookup a.id db.activities ≡ some a
      → row.activity_id ≡ a.id
      → row.user_id ≢ a.host_id
      → seat_found a.id (participant a.id row.user_id db.participants) ≡ seat_of a.id row
      → IsSeatedIn db.activities (put row db.participants) db.next_id
  waitlist_write h found of_a no_host level =
      rewritten db.activities db.activities db.participants db.next_id a.id a a row h found
        (λ j. ground (arith, found)) refl refl of_a no_host (ground (arith, level))

-- The activity's row changed, but neither its host nor its count.
module _ (db : ActivityDb) (a a' : Activity) (h : IsSeated db)
    (found : lookup a.id db.activities ≡ some a) (same : a'.id ≡ a.id)
    (host : a'.host_id ≡ a.host_id) (count : a'.join_count ≡ a.join_count) where
  row_seated :
      (j : ℕ) (b : Activity)
      → lookup j (insert a'.id a' db.activities) ≡ some b
      → IsHosted j b db.participants
  row_seated j b e =
      let old = h.seated a.id a found in
      let at = lookup-insert a'.id j a' db.activities in
      elim (Bool-cases (a'.id == j)) [
        | inl this ↦
            let is_a : a' ≡ b = ground (arith, at, this) in
            record {
              keyed = ground (arith, is_a, this);
              counted = ground (arith, is_a, this, same, count, old.counted);
              hosted = ground (arith, is_a, this, same, host, old.hosted);
            }
        | inr other ↦ h.seated j b (ground (arith, at, other))
      ]

  pub row_write : IsSeatedIn (insert a'.id a' db.activities) db.participants db.next_id
  row_write = record {
    unique = h.unique;
    seated = row_seated;
    unused = λ j later.
        let old = h.unused j later in
        record {
          absent = ground (arith, lookup-insert a'.id j a' db.activities, old.absent, same, found);
          empty = old.empty;
          nobody = old.nobody;
        };
    referenced = λ j u r e.
        let (b, at) = h.referenced j u r e in
        elim (Bool-cases (a'.id == j)) [
          | inl this ↦ (a', ground (arith, lookup-insert a'.id j a' db.activities, this))
          | inr other ↦ (b, ground (arith, lookup-insert a'.id j a' db.activities, other, at))
        ];
  }

module _ (env : ActivityEnv) where
  pub no_seat :
      (k u : ℕ) (rows : List ActivityParticipant)
      → has_joined env (participant k u rows) ≡ false
      → seat_found k (participant k u rows) ≡ 0
  unfolding has_joined seat_found
  no_seat k u rows h = elim (Option-cases (participant k u rows)) [
    | inl missing ↦ ground (arith, missing)
    | inr (row, found) ↦ ground (arith, found, h)
  ]

  take_seat-Yields :
      (user : Caller) (a : Activity) (note : String) (db : ActivityDb)
      → IsSeated db
      → lookup a.id db.activities ≡ some a
      → has_joined env (participant a.id user.id db.participants) ≡ false
      → Yields (λ _. IsSeated) (take_seat env user a note db)
  unfolding take_seat save_row save_activity announce enqueue joined_row one_more is_joined
  take_seat-Yields user a note db h found new =
      Yields-guard (λ _. IsSeated) (a.host_id == user.id) (app_error activity_forbidden 403) _ db
        λ other.
          Yields-guard (λ _. IsSeated) (leb a.capacity a.join_count) (app_error activity_full 409) _
            db
            λ free.
              rewritten db.activities (insert a.id (one_more a) db.activities) db.participants
                db.next_id a.id a (one_more a) (joined_row env a.id user.id note) h found
                (λ j. lookup-insert a.id j (one_more a) db.activities) refl refl refl
                (λ e. ground (arith, other, e))
                (ground (arith, no_seat a.id user.id db.participants new))

  pub promoting :
      {B : Type 0} (f : List ℕ × Activity → B) (a : Activity) (db : ActivityDb)
      → IsSeated db
      → lookup a.id db.activities ≡ some a
      → Yields (λ _. IsSeated) ((promote_waitlist env a >>= λ r. pure (f r)) db)
  promoting f a db h found =
      Yields-bind (λ r db'. IsPromoted env a r.0 r.1 db') (λ _. IsSeated) (promote_waitlist env a)
        (λ r. pure (f r)) db
        (Yields-of-Returns (λ r db'. IsPromoted env a r.0 r.1 db') (promote_waitlist env a db)
          (promote_waitlist-IsPromoted env a db h found))
        λ r db' p. p.sound

  -- A guest's seat is not the host's, so that giving it up leaves one.
  give_up_seat-Yields :
      (a : Activity) (row : ActivityParticipant) (db : ActivityDb)
      → IsSeated db
      → lookup a.id db.activities ≡ some a
      → participant a.id row.user_id db.participants ≡ some row
      → row.user_id ≢ a.host_id
      → is_joined row.status ≡ true
      → Yields (λ _. IsSeated) (give_up_seat env a row db)
  unfolding give_up_seat save_row save_activity one_less quit_row seat_found is_joined
  give_up_seat-Yields a row db h found at guest has =
      let old = h.seated a.id a found in
      let key = participant-key a.id row.user_id row db.participants at in
      let two = seats-two a.id row.user_id a.host_id db.participants guest in
      promoting (λ r. r.1.join_count) (one_less a) _
        (rewritten db.activities (insert a.id (one_less a) db.activities) db.participants db.next_id
          a.id a (one_less a) (quit_row row) h found
          (λ j. lookup-insert a.id j (one_less a) db.activities) refl refl key.0 guest
          (ground (arith, at, has, key.0, two, old.hosted, old.counted)))
        (lookup-insert_at a.id a.id (one_less a) db.activities refl)

  quit_found-Yields :
      (a : Activity) (u : ℕ) (db : ActivityDb)
      → IsSeated db
      → lookup a.id db.activities ≡ some a
      → u ≢ a.host_id
      → Yields (λ _. IsSeated) (quit_found env a (participant a.id u db.participants) db)
  unfolding quit_found save_row quit_row seat_found is_joined
  quit_found-Yields a u db h found guest =
      elim (Option-cases (participant a.id u db.participants)) [
        | inl missing ↦ rw missing h
        | inr (row, at) ↦
            let key = participant-key a.id u row db.participants at in
            let here : participant a.id row.user_id db.participants ≡ some row =
              ground (arith, at, key.1) in
            let away : row.user_id ≢ a.host_id = λ e. ground (arith, guest, key.1, e) in
            elim (Bool-cases (is_joined row.status)) [
              | inl has ↦ rw at (rw has (give_up_seat-Yields a row db h found here away has))
              | inr none_taken ↦ elim (Bool-cases (is_waitlisted row.status)) [
                | inl waiting ↦ rw at (
                    rw none_taken (
                      rw waiting (
                        waitlist_write db a (quit_row row) h found key.0 away
                          (ground (arith, here, none_taken)))))
                | inr nothing ↦ rw at (rw none_taken (rw nothing h))
              ]
            ]
      ]

  pub quit-Keeps : (user : Caller) (id : ℕ) → Keeps IsSeated (quit env user id)
  unfolding quit get_uncancelled
  quit-Keeps user id = record {
    at = λ db h.
        Yields-or_raise (λ _. IsSeated) (not_cancelled (lookup id db.activities))
          (app_error activity_not_found 404) _ db
          λ a e.
            let found = uncancelled_found (lookup id db.activities) a e in
            let same : a.id ≡ id = (h.seated id a found).keyed in
            Yields-guard (λ _. IsSeated) (a.host_id == user.id) (app_error activity_forbidden 403) _
              db
              λ other. rw (sym same) (
                quit_found-Yields a user.id db h (ground (arith, same, found))
                  (λ e. ground (arith, other, e)));
  }

  pub join-Keeps : (user : Caller) (id : ℕ) (note : String) → Keeps IsSeated (join env user id note)
  unfolding join lock_activity
  join-Keeps user id note = record {
    at = λ db h.
        Yields-guard (λ _. IsSeated) user.is_limited (app_error user_limited 403) _ db
          λ _.
            Yields-guard (λ _. IsSeated) (not (str_eq note "") && env.is_blocked note)
              (app_error validation_error 400) _ db
              λ _.
                Yields-or_raise (λ _. IsSeated) (published_only (lookup id db.activities))
                  (app_error activity_not_found 404) _ db
                  λ a e.
                    let found = published_found (lookup id db.activities) a e in
                    let same : a.id ≡ id = (h.seated id a found).keyed in
                    elim (Bool-cases (has_joined env (participant id user.id db.participants))) [
                      | inl already ↦ rw already h
                      | inr new ↦ rw new (
                          take_seat-Yields user a note db h (ground (arith, same, found))
                            (rw same new))
                    ];
  }
