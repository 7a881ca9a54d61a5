-- ===== src/Events.antt =====
-- app/modules/events/service.py: the outbox of domain events, and the worker's loop over it in
-- workers/tasks.py. A time is a number of seconds. Payloads are not kept: no code here reads them.
pub mod Attempts
pub mod Rows
pub mod Saved
pub mod Accounted
pub mod Counted
pub mod Claims
mod Tests
use dating_backend.Prelude.{
  ℕ, suc, ◌+◌, ◌-◌, ◌*◌, ◌^◌, min, String, Bool, true, false, Option, none, some, List, [], ◌∷◌,
  ◌&&◌, not, ltb, leb, if◌then◌else◌, take, or_else, map,
}
use dating_backend.Shared.Action.{Action, pure, modify, ◌>>=◌, ◌>>◌}
use dating_backend.Shared.Table.{Table, insert, rows}

pub data DomainEventStatus : Type 0 where
  pending processing done failed : DomainEventStatus

-- `DomainEventName`, as far as the modelled handlers enqueue them.
pub data DomainEventName : Type 0 where
  order_paid order_cancelled order_refunded : DomainEventName
  booking_created booking_paid booking_completed booking_cancelled : DomainEventName
  activity_joined activity_cancelled activity_waitlist_promoted : DomainEventName
  conversation_created friend_request_sent : DomainEventName
  community_post_reviewed media_reviewed : DomainEventName

pub record DomainEvent : Type 0 where
  pub id : ℕ
  pub name : DomainEventName
  pub aggregate_kind : String
  pub aggregate_id : ℕ
  pub status : DomainEventStatus
  pub attempts : ℕ
  pub last_error : Option String
  pub available_at : ℕ
  pub processed_at : Option ℕ

pub record Outbox : Type 0 where
  pub events : Table DomainEvent
  pub next_id : ℕ

abbrev is_pending : DomainEventStatus → Bool
is_pending pending = true
is_pending _ = false

-- `enqueue`, at `now`
unfoldable pub enqueue : ℕ → DomainEventName → String → ℕ → Option ℕ → Action Outbox DomainEvent
enqueue now name aggregate_kind aggregate_id available_at o =
    let event : DomainEvent = record {
      id = o.next_id;
      name = name;
      aggregate_kind = aggregate_kind;
      aggregate_id = aggregate_id;
      status = pending;
      attempts = 0;
      last_error = none;
      available_at = or_else available_at now;
      processed_at = none;
    } in
    pure event (record { events = insert o.next_id event o.events; next_id = o.next_id + 1 })

-- `order_by(available_at.asc())`, stable.
pub insert_by_time : DomainEvent → List DomainEvent → List DomainEvent
insert_by_time e [] = e ∷ []
insert_by_time e (d ∷ ds) =
    let rest = insert_by_time e ds in
    if leb e.available_at d.available_at then e ∷ d ∷ ds else d ∷ rest

pub sort_by_time : List DomainEvent → List DomainEvent
unfolding insert_by_time
sort_by_time [] = []
sort_by_time (e ∷ es) = insert_by_time e (sort_by_time es)

-- The `where` clause of `claim_batch`; `locked` are the rows that other workers hold, which
-- `skip_locked` leaves out.
pub is_claimable : ℕ → (ℕ → Bool) → DomainEvent → Bool
is_claimable now locked e = is_pending e.status && leb e.available_at now && not (locked e.id)

abbrev pub claimed : DomainEvent → DomainEvent
claimed e = record e { status = processing; attempts = e.attempts + 1 }

-- The flush of changed rows.
pub save_all : List DomainEvent → Table DomainEvent → Table DomainEvent
save_all [] t = t
save_all (e ∷ es) t = save_all es (insert e.id e t)

pub claim_batch : ℕ → (ℕ → Bool) → ℕ → Action Outbox (List DomainEvent)
unfolding is_claimable sort_by_time save_all
claim_batch now locked batch o =
    let due = take batch (sort_by_time (rows (is_claimable now locked) o.events)) in
    let events = map claimed due in pure events (record o { events = save_all events o.events })

-- The event as `mark_done` leaves it.
pub finished : ℕ → DomainEvent → DomainEvent
finished now e = record e { status = done; processed_at = some now; last_error = none }

abbrev pub max_attempts : ℕ
max_attempts = 8

-- `min(3600, 15 * (2 ** max(0, attempts - 1)))`
pub backoff : ℕ → ℕ
backoff attempts = min 3600 (15 * 2 ^ (attempts - 1))

-- The event as `mark_failed` leaves it; `error` is the text already cut to 2000 characters.
pub failed_event : ℕ → String → Bool → DomainEvent → DomainEvent
unfolding backoff
failed_event now error retry e =
    if retry && ltb e.attempts max_attempts
    then record e {
      status = pending;
      available_at = now + backoff e.attempts;
      last_error = some error;
    }
    else record e { status = failed; last_error = some error; processed_at = some now }

abbrev save : DomainEvent → Action Outbox (Unit {0})
save e = modify (λ o. record o { events = insert e.id e o.events })

pub mark_done : ℕ → DomainEvent → Action Outbox (Unit {0})
mark_done now e = save (finished now e)

pub mark_failed : ℕ → String → Bool → DomainEvent → Action Outbox (Unit {0})
mark_failed now error retry e = save (failed_event now error retry e)

-- The body of the loop in `drain_domain_events`; `dispatch` is `none` where the handlers return, and
-- the text of the exception where one raises.
pub drain_one : ℕ → (DomainEvent → Option String) → DomainEvent → Action Outbox Bool
drain_one now dispatch e = elim (dispatch e) [
  | none ↦ mark_done now e >> pure true
  | some error ↦ mark_failed now error true e >> pure false
]

-- The counts `done` and `failed` of `drain_domain_events`.
pub drain_all : ℕ → (DomainEvent → Option String) → List DomainEvent → Action Outbox (ℕ × ℕ)
unfolding drain_one
drain_all now dispatch [] = pure (0, 0)
drain_all now dispatch (e ∷ es) = drain_one now dispatch e >>= λ was_done.
    drain_all now dispatch es >>= λ counts.
    pure (if was_done then (counts.0 + 1, counts.1) else (counts.0, counts.1 + 1))

pub drain_domain_events : ℕ → (ℕ → Bool) → ℕ → (DomainEvent → Option String) → Action Outbox (ℕ × ℕ)
drain_domain_events now locked batch dispatch =
    claim_batch now locked batch >>= λ events. drain_all now dispatch events
