-- ===== src/Events/Tests.antt =====
-- A concrete outbox, on which the theorems apply.
use dating_backend.Events.Accounted.{attempts_of, tries}
use dating_backend.Events.Counted.{claims, claimed_at_most_eight}
use dating_backend.Prelude.{refl, count, ◌++◌, ◌==◌, if◌then◌else◌, ◌+◌, true}
use dating_backend.Shared.Table.{rows, lookup}
use dating_backend.Events.Rows.{IsRow}
use dating_backend.Events.Saved.{is_in, taken}
use dating_backend.Events.Saved.{taken_row}
use dating_backend.Prelude.{◌≤◌, ◌≡◌, false, none, some, List, [], ◌∷◌, length, map, All, arith}
use dating_backend.Shared.Action.{ok}
use dating_backend.Events.{DomainEvent, DomainEventName, DomainEventStatus, Outbox, claim_batch}
use dating_backend.Events.Attempts.{OutboxStep, add, drain, outbox_steps, AllBounded}
use dating_backend.Events.Claims.{IsInOrder, claim_batch_claims, is_waiting, may_claim}

abbrev event : DomainEvent
event = record {
  id = 1;
  name = DomainEventName.order_paid;
  aggregate_kind = "order";
  aggregate_id = 3;
  status = DomainEventStatus.pending;
  attempts = 7;
  last_error = some "boom";
  available_at = 60;
  processed_at = none;
}

abbrev outbox : Outbox
outbox = record { events = (1, event) ∷ []; next_id = 2 }

abbrev outbox_history : List OutboxStep
outbox_history =
    add 10 DomainEventName.order_paid "order" 4 none
    ∷ drain 70 (λ _. false) 50 (λ _. some "boom")
    ∷ drain 90 (λ _. false) 50 (λ _. none)
    ∷ []

claimed_at_most_eight_example :
    (tries 1 (outbox_steps outbox_history outbox).events ≡ claims 1 outbox_history outbox + 7)
    × ((claims 1 outbox_history outbox + 7) ≤ 8)
    × AllBounded (outbox_steps outbox_history outbox)
unfolding lookup attempts_of
claimed_at_most_eight_example =
    claimed_at_most_eight 1 outbox_history outbox
      (record { tried = ground arith; retried = λ _. ground arith }, tt)
      ((refl, refl, tt), (ground arith, tt))

claim_batch_claims_example :
    (due : List DomainEvent) × (left : List DomainEvent) × (o' : Outbox) × (claim_batch 70
        (λ _. false)
        50
        outbox
      ≡ ok (map taken due, o'))
    × (length due ≡ 1)
    × All (IsRow outbox.events) due
    × All (λ e. may_claim 70 (λ _. false) e ≡ true) due
    × IsInOrder (due ++ left)
    × (count (λ e. e.id == 1) (due ++ left) ≡ 1)
    × (lookup 1 o'.events ≡ (if is_in 1 due then some (taken event) else some event))
unfolding rows lookup is_waiting taken_row
claim_batch_claims_example =
    claim_batch_claims 70 (λ _. false) 50 outbox 1 (λ e. e.id == 1) (refl, refl, tt)
