-- ===== src/Activity/Data.antt =====
-- The activity tables of app/models/entities.py. A participant row is found by the pair of activity and
-- user, which `uq_activity_participant` keeps unique.
use dating_backend.Prelude.{
  ℕ, String, Bool, true, false, Option, none, some, List, [], ◌∷◌, ◌&&◌, ◌==◌, if◌then◌else◌, count,
}
use dating_backend.Shared.Action.{Action, modify, on_part}
use dating_backend.Shared.Table.{Table, insert}
use dating_backend.Events.{Outbox, DomainEvent, DomainEventName, enqueue}
use dating_backend.Commerce.Data.{ActivityStatus}

pub data ParticipantRole : Type 0 where
  host member : ParticipantRole

pub data ParticipantStatus : Type 0 where
  joined waitlisted quitted kicked : ParticipantStatus

pub record Activity : Type 0 where
  pub id : ℕ
  pub host_id : ℕ
  pub capacity : ℕ
  pub join_count : ℕ
  pub status : ActivityStatus
  pub cancel_reason : Option String
  pub cancelled_at : Option ℕ

pub record ActivityParticipant : Type 0 where
  pub activity_id : ℕ
  pub user_id : ℕ
  pub role : ParticipantRole
  pub status : ParticipantStatus
  pub note : Option String
  pub waitlisted_at : Option ℕ

pub record ActivityDb : Type 0 where
  pub activities : Table Activity
  pub participants : List ActivityParticipant
  pub outbox : Outbox
  pub next_id : ℕ

unfoldable pub is_joined : ParticipantStatus → Bool
is_joined joined = true
is_joined _ = false

unfoldable pub is_waitlisted : ParticipantStatus → Bool
is_waitlisted waitlisted = true
is_waitlisted _ = false

-- The row of this activity and this user.
abbrev pub is_row : ℕ → ℕ → ActivityParticipant → Bool
is_row activity_id user_id row = row.activity_id == activity_id && row.user_id == user_id

-- `_participant`
unfoldable pub participant : ℕ → ℕ → List ActivityParticipant → Option ActivityParticipant
participant activity_id user_id [] = none
participant activity_id user_id (row ∷ rows) =
    if is_row activity_id user_id row then some row else participant activity_id user_id rows

-- `db.add(row)`, or the flush of a changed row.
unfoldable pub put : ActivityParticipant → List ActivityParticipant → List ActivityParticipant
put row [] = row ∷ []
put row (r ∷ rows) =
    let rest = put row rows in if is_row row.activity_id row.user_id r then row ∷ rows else r ∷ rest

abbrev pub has_seat : ℕ → ActivityParticipant → Bool
has_seat activity_id row = row.activity_id == activity_id && is_joined row.status

-- How many participants have joined.
unfoldable pub seats : ℕ → List ActivityParticipant → ℕ
seats activity_id rows = count (has_seat activity_id) rows

unfoldable pub save_row : ActivityParticipant → Action ActivityDb (Unit {0})
save_row row = modify (λ db. record db { participants = put row db.participants })

unfoldable pub save_activity : Activity → Action ActivityDb (Unit {0})
save_activity a = modify (λ db. record db { activities = insert a.id a db.activities })

-- The event that the service enqueues about an activity.
unfoldable pub announce : ℕ → DomainEventName → ℕ → Action ActivityDb DomainEvent
announce now name activity_id =
    on_part (λ db. db.outbox) (λ o db. record db { outbox = o })
      (enqueue now name "activity" activity_id none)
