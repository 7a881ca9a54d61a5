-- ===== src/Activity/Requests.antt =====
-- Requests to app/modules/activity/router.py, one after another.
use dating_backend.Events.{enqueue}
use dating_backend.Prelude.{
  ℕ, ◌≡◌, ◌≢◌, refl, String, false, Option, none, some, List, [], ◌∷◌, ◌==◌, not, ltb, arith,
  Bool-cases, inl, inr, Option-cases, sym,
}
use dating_backend.Shared.Errors.{
  app_error, activity_not_found, user_limited, user_not_completed, activity_forbidden,
  activity_already_joined, activity_invalid,
}
use dating_backend.Shared.Action.{Action, committed}
use dating_backend.Shared.Action.Keeps.{
  Yields, Keeps, Yields-guard, Yields-or_raise, committed_of_commits,
}
use dating_backend.Shared.Table.{lookup, lookup-insert_at}
use dating_backend.Commerce.Orders.{is_cancelled_activity, is_published_activity}
use dating_backend.Activity.Data.{
  Activity, ActivityDb, is_joined, is_waitlisted, participant, save_row, save_activity, announce,
}
use dating_backend.Activity.Rows.{seat_found, participant-key}
use dating_backend.Activity.Participation.{
  Caller, ActivityEnv, published_only, not_cancelled, quit_row, has_joined, join, lock_activity,
  get_uncancelled, quit, waiting_row, join_waitlist, leave_found, leave_waitlist, create,
  update_capacity, cancel,
}
use dating_backend.Activity.Seats.{IsSeated, started}
use dating_backend.Activity.Handlers.{
  join-Keeps, quit-Keeps, no_seat, promoting, waitlist_write, row_write, published_found,
  uncancelled_found,
}

module _ (env : ActivityEnv) where
  waiting_level :
      (a : Activity) (u : ℕ) (db : ActivityDb)
      → IsSeated db
      → lookup a.id db.activities ≡ some a
      → u ≢ a.host_id
      → has_joined env (participant a.id u db.participants) ≡ false
      → Yields
          (λ _. IsSeated)
          (save_row (waiting_row env a.id u (participant a.id u db.participants)) db)
  unfolding save_row waiting_row is_joined
  waiting_level a u db h found guest free =
      elim (Option-cases (participant a.id u db.participants)) [
        | inl missing ↦ rw missing (
            waitlist_write db a (waiting_row env a.id u none) h found refl guest
              (ground (arith, no_seat env a.id u db.participants free)))
        | inr (row, at) ↦
            let key = participant-key a.id u row db.participants at in
            rw at (
              waitlist_write db a (waiting_row env a.id u (some row)) h found key.0
                (λ e. ground (arith, guest, key.1, e))
                (ground (arith, key.1, no_seat env a.id u db.participants free)))
      ]

  join_waitlist-Keeps : (user : Caller) (id : ℕ) → Keeps IsSeated (join_waitlist env user id)
  unfolding join_waitlist lock_activity save_row
  join_waitlist-Keeps user id = record {
    at = λ db h.
        Yields-guard (λ _. IsSeated) user.is_limited (app_error user_limited 403) _ db
          λ _.
            Yields-or_raise (λ _. IsSeated) (published_only (lookup id db.activities))
              (app_error activity_not_found 404) _ db
              λ a e.
                let found = published_found (lookup id db.activities) a e in
                let same : a.id ≡ id = (h.seated id a found).keyed in
                Yields-guard (λ _. IsSeated) (a.host_id == user.id)
                  (app_error activity_forbidden 403) _ db
                  λ other.
                    Yields-guard (λ _. IsSeated)
                      (has_joined env (participant id user.id db.participants))
                      (app_error activity_already_joined 409) _ db
                      λ free.
                        Yields-guard (λ _. IsSeated) (ltb a.join_count a.capacity)
                          (app_error activity_invalid 409) _ db
                          λ _. rw (sym same) (
                            waiting_level a user.id db h (ground (arith, same, found))
                              (λ e. ground (arith, other, e)) (rw same free));
  }

  leave_waitlist-Keeps : (user : Caller) (id : ℕ) → Keeps IsSeated (leave_waitlist env user id)
  unfolding leave_waitlist leave_found save_row quit_row seat_found is_joined is_waitlisted
  leave_waitlist-Keeps user id = record {
    at = λ db h. elim (Option-cases (participant id user.id db.participants)) [
      | inl missing ↦ rw missing h
      | inr (row, at) ↦ elim (Bool-cases (is_waitlisted row.status)) [
        | inr settled ↦ rw at (rw settled h)
        | inl waiting ↦
            let (a, found) = h.referenced id user.id row at in
            let old = h.seated id a found in
            let key = participant-key id user.id row db.participants at in
            rw at (
              rw waiting (
                waitlist_write db a (quit_row row) h (ground (arith, found, old.keyed))
                  (ground (arith, key.0, old.keyed))
                  (λ e. ground (arith, old.hosted, at, key.1, e, waiting))
                  (ground (arith, at, key.1, old.keyed, waiting))))
      ]
    ];
  }

  create-Keeps : (user : Caller) (capacity : ℕ) → Keeps IsSeated (create env user capacity)
  unfolding create save_row save_activity is_joined
  create-Keeps user capacity = record {
    at = λ db h.
        Yields-guard (λ _. IsSeated) user.is_limited (app_error user_limited 403) _ db
          λ _.
            Yields-guard (λ _. IsSeated) (not user.profile_completed)
              (app_error user_not_completed 400) _ db
              λ _. started db.activities db.participants db.next_id _ _ h refl refl refl refl refl;
  }

  update_capacity-Keeps :
      (user : Caller) (id capacity : ℕ) → Keeps IsSeated (update_capacity env user id capacity)
  unfolding update_capacity get_uncancelled save_activity
  update_capacity-Keeps user id capacity = record {
    at = λ db h.
        Yields-or_raise (λ _. IsSeated) (not_cancelled (lookup id db.activities))
          (app_error activity_not_found 404) _ db
          λ a e.
            let found = uncancelled_found (lookup id db.activities) a e in
            let same : a.id ≡ id = (h.seated id a found).keyed in
            let a' : Activity = record a { capacity = capacity } in
            let h' = row_write db a a' h (ground (arith, same, found)) refl refl refl in
            Yields-guard (λ _. IsSeated) (not (a.host_id == user.id))
              (app_error activity_forbidden 403) _ db
              λ _. elim (Bool-cases (is_published_activity a.status)) [
                | inl public ↦ rw public (
                    promoting env (λ r. r.1) a' _ h'
                      (lookup-insert_at a.id a.id a' db.activities refl))
                | inr other ↦ rw other h'
              ];
  }

  cancel-Keeps :
      (user : Caller) (id : ℕ) (reason : Option String) → Keeps IsSeated (cancel env user id reason)
  unfolding cancel save_activity announce enqueue
  cancel-Keeps user id reason = record {
    at = λ db h.
        Yields-or_raise (λ _. IsSeated) (lookup id db.activities) (app_error activity_not_found 404)
          _ db
          λ a found.
            let same : a.id ≡ id = (h.seated id a found).keyed in
            Yields-guard (λ _. IsSeated) (not (a.host_id == user.id))
              (app_error activity_forbidden 403) _ db
              λ _. elim (Bool-cases (is_cancelled_activity a.status)) [
                | inl already ↦ rw already h
                | inr live ↦
                    rw live (row_write db a _ h (ground (arith, same, found)) refl refl refl)
              ];
  }

pub data ActivityRequest : Type 0 where
  create_activity : ℕ → ActivityRequest
  join_activity : ℕ → String → ActivityRequest
  quit_activity : ℕ → ActivityRequest
  wait_for : ℕ → ActivityRequest
  stop_waiting : ℕ → ActivityRequest
  set_capacity : ℕ → ℕ → ActivityRequest
  cancel_activity : ℕ → Option String → ActivityRequest

unfoldable pub serve_activity : ActivityEnv → Caller → ActivityRequest → ActivityDb → ActivityDb
serve_activity env user (create_activity capacity) db = committed (create env user capacity db) db
serve_activity env user (join_activity id note) db = committed (join env user id note db) db
serve_activity env user (quit_activity id) db = committed (quit env user id db) db
serve_activity env user (wait_for id) db = committed (join_waitlist env user id db) db
serve_activity env user (stop_waiting id) db = committed (leave_waitlist env user id db) db
serve_activity env user (set_capacity id capacity) db =
    committed (update_capacity env user id capacity db) db
serve_activity env user (cancel_activity id reason) db = committed (cancel env user id reason db) db

unfoldable pub serve_activities :
    List (ActivityEnv × Caller × ActivityRequest) → ActivityDb → ActivityDb
unfolding serve_activity
serve_activities [] db = db
serve_activities ((env, user, r) ∷ rs) db = serve_activities rs (serve_activity env user r db)

committed-IsSeated :
    {A : Type 0} (m : Action ActivityDb A) (db : ActivityDb)
    → Keeps IsSeated m
    → IsSeated db
    → IsSeated (committed (m db) db)
committed-IsSeated m db k h = committed_of_commits IsSeated (m db) db (k.at db h) h

serve_activity-IsSeated :
    (env : ActivityEnv) (user : Caller) (r : ActivityRequest) (db : ActivityDb)
    → IsSeated db
    → IsSeated (serve_activity env user r db)
unfolding serve_activity
serve_activity-IsSeated env user (create_activity capacity) db h =
    committed-IsSeated _ db (create-Keeps env user capacity) h
serve_activity-IsSeated env user (join_activity id note) db h =
    committed-IsSeated _ db (join-Keeps env user id note) h
serve_activity-IsSeated env user (quit_activity id) db h =
    committed-IsSeated _ db (quit-Keeps env user id) h
serve_activity-IsSeated env user (wait_for id) db h =
    committed-IsSeated _ db (join_waitlist-Keeps env user id) h
serve_activity-IsSeated env user (stop_waiting id) db h =
    committed-IsSeated _ db (leave_waitlist-Keeps env user id) h
serve_activity-IsSeated env user (set_capacity id capacity) db h =
    committed-IsSeated _ db (update_capacity-Keeps env user id capacity) h
serve_activity-IsSeated env user (cancel_activity id reason) db h =
    committed-IsSeated _ db (cancel-Keeps env user id reason) h

-- Whatever users create, join, quit, wait for, resize and cancel, failing requests included, the
-- `join_count` of every activity is the number of its joined participants, and its host is one of them,
-- if that held before.
pub serve_activities-IsSeated :
    (rs : List (ActivityEnv × Caller × ActivityRequest)) (db : ActivityDb)
    → IsSeated db
    → IsSeated (serve_activities rs db)
unfolding serve_activities
serve_activities-IsSeated [] db h = h
serve_activities-IsSeated ((env, user, r) ∷ rs) db h =
    serve_activities-IsSeated rs (serve_activity env user r db)
      (serve_activity-IsSeated env user r db h)
