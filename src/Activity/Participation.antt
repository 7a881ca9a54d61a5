-- ===== src/Activity/Participation.antt =====
-- `create`, `join`, `quit`, `join_waitlist`, `leave_waitlist`, `cancel`, the capacity of `update`, and
-- `_promote_waitlist` of app/modules/activity/service.py. The activity's chat group, the request for
-- friendship that a note sends, and the engagement records are other services' tables and are left out.
use dating_backend.Prelude.{
  ℕ, suc, zero, ◌+◌, ◌-◌, max, String, Bool, true, false, Option, none, some, List, [], ◌∷◌, ◌&&◌,
  not, ◌==◌, ltb, leb, if◌then◌else◌, or_else, count,
}
use dating_backend.Shared.Errors.{
  app_error, user_limited, user_not_completed, validation_error, activity_not_found,
  activity_forbidden, activity_full, activity_already_joined, activity_invalid,
}
use dating_backend.Shared.Action.{Action, pure, gets, modify, or_raise, raise_if, ◌>>=◌, ◌>>◌}
use dating_backend.Shared.Table.{lookup}
use dating_backend.Events.{DomainEventName}
use dating_backend.Commerce.Data.{ActivityStatus}
use dating_backend.Commerce.Orders.{is_cancelled_activity, is_published_activity}
use dating_backend.Activity.Data.{
  Activity, ActivityDb, ActivityParticipant, joined, waitlisted, quitted, host, member, is_joined,
  is_waitlisted, participant, save_row, save_activity, announce,
}
use text.Mathlib.Text.{◌==◌ as str_eq}

-- The caller, as far as these handlers read it.
pub record Caller : Type 0 where
  pub id : ℕ
  pub is_limited : Bool
  pub profile_completed : Bool

-- The clock, the verdict of the content check on a note, and the rows that other transactions lock.
pub record ActivityEnv : Type 0 where
  pub now : ℕ
  pub is_blocked : String → Bool
  pub is_locked : ActivityParticipant → Bool

unfoldable pub published_only : Option Activity → Option Activity
published_only none = none
published_only (some a) = if is_published_activity a.status then some a else none

unfoldable pub not_cancelled : Option Activity → Option Activity
not_cancelled none = none
not_cancelled (some a) = if is_cancelled_activity a.status then none else some a

-- `_lock_activity`
unfoldable pub lock_activity : ℕ → Action ActivityDb Activity
unfolding published_only
lock_activity activity_id = do
  found ← gets (λ db. lookup activity_id db.activities)
  or_raise (published_only found) (app_error activity_not_found 404)

unfoldable pub get_uncancelled : ℕ → Action ActivityDb Activity
unfolding not_cancelled
get_uncancelled activity_id = do
  found ← gets (λ db. lookup activity_id db.activities)
  or_raise (not_cancelled found) (app_error activity_not_found 404)

-- `asc().nullslast()`: whether the first comes strictly before the second.
unfoldable pub is_earlier : Option ℕ → Option ℕ → Bool
is_earlier none _ = false
is_earlier (some s) none = true
is_earlier (some s) (some t) = ltb s t

unfoldable pub promoted_row : ActivityParticipant → ActivityParticipant
promoted_row row = record row { status = joined; waitlisted_at = none }

unfoldable pub one_more : Activity → Activity
one_more a = record a { join_count = a.join_count + 1 }

unfoldable pub quit_row : ActivityParticipant → ActivityParticipant
quit_row row = record row { status = quitted; waitlisted_at = none }

-- `max(int(activity.join_count or 1) - 1, 1)`
unfoldable pub one_less : Activity → Activity
one_less a = record a { join_count = max (a.join_count - 1) 1 }

module _ (env : ActivityEnv) where
  unfoldable pub waits : ℕ → ActivityParticipant → Bool
  waits activity_id row =
      row.activity_id == activity_id && (is_waitlisted row.status && not (env.is_locked row))

  -- The row that `_promote_waitlist` takes next; of rows that waited as long, the first.
  unfoldable pub next_waitlisted : ℕ → List ActivityParticipant → Option ActivityParticipant
  unfolding waits is_earlier
  next_waitlisted activity_id [] = none
  next_waitlisted activity_id (row ∷ rows) = elim (next_waitlisted activity_id rows) [
    | none ↦ if waits activity_id row then some row else none
    | some r ↦
        if waits activity_id row && not (is_earlier r.waitlisted_at row.waitlisted_at)
        then some row
        else some r
  ]

  -- The writes of one turn of the loop.
  unfoldable pub promote_one : Activity → ActivityParticipant → Action ActivityDb (Unit {0})
  unfolding promoted_row one_more
  promote_one a row =
      save_row (promoted_row row)
      >> save_activity (one_more a)
      >> announce env.now DomainEventName.activity_waitlist_promoted a.id
      >> pure tt

  -- The loop of `_promote_waitlist` over the first `fuel` turns: the users that it promoted, and the
  -- activity as it leaves it.
  unfoldable pub promote_turns : ℕ → Activity → Action ActivityDb (List ℕ × Activity)
  unfolding next_waitlisted promote_one
  promote_turns zero a db = pure ([], a) db
  promote_turns (suc fuel) a db = elim (ltb a.join_count a.capacity) [
    | false ↦ pure ([], a) db
    | true ↦ elim (next_waitlisted a.id db.participants) [
      | none ↦ pure ([], a) db
      | some row ↦
          (promote_one a row >> promote_turns fuel (one_more a) >>= λ r.
          pure (row.user_id ∷ r.0, r.1))
            db
    ]
  ]

  -- Each turn takes a free seat, so that the free seats bound the turns.
  unfoldable pub promote_waitlist : Activity → Action ActivityDb (List ℕ × Activity)
  unfolding promote_turns
  promote_waitlist a = promote_turns (a.capacity - a.join_count) a

  unfoldable pub joined_row : ℕ → ℕ → String → ActivityParticipant
  joined_row activity_id user_id note = record {
    activity_id = activity_id;
    user_id = user_id;
    role = member;
    status = joined;
    note = if str_eq note "" then none else some note;
    waitlisted_at = none;
  }

  unfoldable pub take_seat : Caller → Activity → String → Action ActivityDb (ℕ × Bool)
  unfolding joined_row one_more
  take_seat user a note = do
    raise_if (a.host_id == user.id) (app_error activity_forbidden 403)
    raise_if (leb a.capacity a.join_count) (app_error activity_full 409)
    save_row (joined_row a.id user.id note)
    save_activity (one_more a)
    announce env.now DomainEventName.activity_joined a.id
    pure (a.join_count + 1, false)

  unfoldable pub has_joined : Option ActivityParticipant → Bool
  has_joined none = false
  has_joined (some row) = is_joined row.status

  -- The count and `already` of the reply; `note` is the stripped text.
  unfoldable pub join : Caller → ℕ → String → Action ActivityDb (ℕ × Bool)
  unfolding take_seat has_joined
  join user activity_id note = do
    raise_if user.is_limited (app_error user_limited 403)
    raise_if (not (str_eq note "") && env.is_blocked note) (app_error validation_error 400)
    a ← lock_activity activity_id
    row ← gets (λ db. participant activity_id user.id db.participants)
    if has_joined row then pure (a.join_count, true) else take_seat user a note

  unfoldable pub give_up_seat : Activity → ActivityParticipant → Action ActivityDb ℕ
  unfolding quit_row one_less
  give_up_seat a row =
      save_row (quit_row row)
      >> save_activity (one_less a)
      >> promote_waitlist (one_less a)
      >>= λ r. pure r.1.join_count

  unfoldable pub quit_found : Activity → Option ActivityParticipant → Action ActivityDb ℕ
  unfolding give_up_seat
  quit_found a none = pure a.join_count
  quit_found a (some row) =
      if is_joined row.status
      then give_up_seat a row
      else if is_waitlisted row.status
      then save_row (quit_row row) >> pure a.join_count
      else pure a.join_count

  unfoldable pub quit : Caller → ℕ → Action ActivityDb ℕ
  unfolding quit_found
  quit user activity_id = do
    a ← get_uncancelled activity_id
    raise_if (a.host_id == user.id) (app_error activity_forbidden 403)
    row ← gets (λ db. participant activity_id user.id db.participants)
    quit_found a row

  -- The row after `join_waitlist`: who waits already keeps the place.
  unfoldable pub waiting_row : ℕ → ℕ → Option ActivityParticipant → ActivityParticipant
  waiting_row activity_id user_id none = record {
    activity_id = activity_id;
    user_id = user_id;
    role = member;
    status = waitlisted;
    note = none;
    waitlisted_at = some env.now;
  }
  waiting_row activity_id user_id (some row) = record row {
    status = waitlisted;
    waitlisted_at =
        if is_waitlisted row.status then some (or_else row.waitlisted_at env.now) else some env.now;
  }

  unfoldable pub is_no_later : ℕ → Option ℕ → Bool
  is_no_later t none = false
  is_no_later t (some s) = leb s t

  -- `_waitlist_position`
  unfoldable pub waitlist_position : ℕ → ActivityParticipant → List ActivityParticipant → ℕ
  unfolding is_no_later
  waitlist_position activity_id row rows = max 1 (
      count
        (λ (r : ActivityParticipant).
          r.activity_id == activity_id
          && (is_waitlisted r.status
              && is_no_later (or_else row.waitlisted_at env.now) r.waitlisted_at))
        rows)

  unfoldable pub join_waitlist : Caller → ℕ → Action ActivityDb (ℕ × ℕ)
  unfolding has_joined waiting_row waitlist_position
  join_waitlist user activity_id = do
    raise_if user.is_limited (app_error user_limited 403)
    a ← lock_activity activity_id
    raise_if (a.host_id == user.id) (app_error activity_forbidden 403)
    row ← gets (λ db. participant activity_id user.id db.participants)
    raise_if (has_joined row) (app_error activity_already_joined 409)
    raise_if (ltb a.join_count a.capacity) (app_error activity_invalid 409)
    save_row (waiting_row activity_id user.id row)
    position ←
        gets (λ db.
          waitlist_position activity_id (waiting_row activity_id user.id row) db.participants)
    pure (position, a.join_count)

  unfoldable pub leave_found : Option ActivityParticipant → Action ActivityDb (Unit {0})
  unfolding quit_row
  leave_found none = pure tt
  leave_found (some row) = if is_waitlisted row.status then save_row (quit_row row) else pure tt

  unfoldable pub leave_waitlist : Caller → ℕ → Action ActivityDb (Unit {0})
  unfolding leave_found
  leave_waitlist user activity_id =
      gets (λ db. participant activity_id user.id db.participants) >>= leave_found

  -- A new activity is its host's, who takes the first seat; `_brief` and the text fields are left out.
  unfoldable pub create : Caller → ℕ → Action ActivityDb Activity
  create user capacity db =
      let a : Activity = record {
        id = db.next_id;
        host_id = user.id;
        capacity = capacity;
        join_count = 1;
        status = ActivityStatus.activity_pending;
        cancel_reason = none;
        cancelled_at = none;
      } in
      let row : ActivityParticipant = record {
        activity_id = db.next_id;
        user_id = user.id;
        role = host;
        status = joined;
        note = none;
        waitlisted_at = none;
      } in
      (raise_if user.is_limited (app_error user_limited 403)
          >> raise_if (not user.profile_completed) (app_error user_not_completed 400)
          >> modify (λ db. record db { next_id = db.next_id + 1 })
          >> save_activity a
          >> save_row row
          >> pure a)
        db

  -- `update`, where the request sets the capacity.
  unfoldable pub update_capacity : Caller → ℕ → ℕ → Action ActivityDb Activity
  update_capacity user activity_id capacity = do
    a ← get_uncancelled activity_id
    raise_if (not (a.host_id == user.id)) (app_error activity_forbidden 403)
    save_activity (record a { capacity = capacity })
    if is_published_activity a.status
        then (promote_waitlist (record a { capacity = capacity }) >>= λ r. pure r.1)
        else pure (record a { capacity = capacity })

  unfoldable pub cancel : Caller → ℕ → Option String → Action ActivityDb Activity
  cancel user activity_id reason = do
    found ← gets (λ db. lookup activity_id db.activities)
    a ← or_raise found (app_error activity_not_found 404)
    raise_if (not (a.host_id == user.id)) (app_error activity_forbidden 403)
    let cancelled = record a {
      status = ActivityStatus.activity_cancelled;
      cancel_reason = reason;
      cancelled_at = some env.now;
    }
    if is_cancelled_activity a.status
        then pure a
        else (save_activity cancelled
            >> announce env.now DomainEventName.activity_cancelled a.id
            >> pure cancelled)
