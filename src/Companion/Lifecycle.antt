-- ===== src/Companion/Lifecycle.antt =====
-- What a transition does to a booking, and who may ask for it.
use dating_backend.Prelude.{
  ℕ, ◌≡◌, refl, String, Bool, true, Option, none, some, not, ◌||◌, ◌==◌, arith, Bool-cases, inl,
  inr, ◌⊎◌, ◌∙◌,
}
use dating_backend.Shared.Errors.{
  app_error, companion_forbidden, booking_invalid, booking_not_found,
}
use dating_backend.Shared.Action.{Action, ◌>>◌, raise_if}
use dating_backend.Shared.Action.Keeps.{Yields, Yields-guard, Yields-or_raise, Yields-map}
use dating_backend.Shared.Table.{lookup, insert}
use dating_backend.Events.{enqueue}
use dating_backend.Commerce.Data.{Db, Env, on_companion, publish}
use dating_backend.Companion.Data.{
  Bookings, CompanionBooking, BookingStatus, awaits_payment, release_slot, save_booking, save_slot,
  is_taken, free_found, free_slot, CompanionSlot,
}
use dating_backend.Companion.Steps.{
  Step, is_companions, terms, confirm_step, start_step, complete_step, decline_step, confirmed,
  declined_first, declined_unpaid, declined_paid, begun, finished, withdrawn, rescheduled,
}
use dating_backend.Companion.Booking.{
  BookingAction, confirm, decline, start, complete, withdraw, reschedule, is_paid_booking,
  is_running, is_closed, cancelled_booking, save, move_booking, booking_for, transition,
}

-- What a transition that commits did.
pub record Moved (action : BookingAction) (uid : ℕ) (b : CompanionBooking) (db : Db)
    (b' : CompanionBooking) (db' : Db) : Type 0 where
  pub step : Step action b.status b'.status
  pub by : is_companions action ≡ true → b.companion_id ≡ uid
  pub same : terms b' ≡ terms b
  pub written : db'.companion.bookings ≡ insert b.id b' db.companion.bookings

-- Releasing a slot leaves the bookings alone.
free_found-bookings :
    (o : Option CompanionSlot) (t : Bookings) → (free_found o t).bookings ≡ t.bookings
unfolding free_found save_slot
free_found-bookings none t = refl
free_found-bookings (some slot) t = elim (Bool-cases (is_taken slot.status)) [
  | inl taken ↦ rw taken refl
  | inr open_yet ↦ rw open_yet refl
]

free_slot-bookings : (o : Option ℕ) (t : Bookings) → (free_slot o t).bookings ≡ t.bookings
unfolding free_slot
free_slot-bookings none t = refl
free_slot-bookings (some i) t = free_found-bookings (lookup i t.slots) t

module _ (env : Env) (uid : ℕ) (reason : Option String) (b : CompanionBooking) (db : Db) where
  by_companion :
      (action : BookingAction) (m : Action Db CompanionBooking)
      → (b.companion_id ≡ uid → Yields (λ b' db'. Moved action uid b db b' db') (m db))
      → Yields
          (λ b' db'. Moved action uid b db b' db')
          ((raise_if (not (b.companion_id == uid)) (app_error companion_forbidden 403) >> m) db)
  by_companion action m k =
      Yields-guard (λ b' db'. Moved action uid b db b' db') (not (b.companion_id == uid))
        (app_error companion_forbidden 403) m db (λ mine. k (ground (arith, mine)))

  in_status :
      (action : BookingAction) (ok? : Bool) (m : Action Db CompanionBooking)
      → (ok? ≡ true → Yields (λ b' db'. Moved action uid b db b' db') (m db))
      → Yields
          (λ b' db'. Moved action uid b db b' db')
          ((raise_if (not ok?) (app_error booking_invalid 409) >> m) db)
  in_status action ok? m k =
      Yields-guard (λ b' db'. Moved action uid b db b' db') (not ok?)
        (app_error booking_invalid 409) m db (λ fine. k (ground (arith, fine)))

  released :
      (b' : CompanionBooking)
      → insert b.id b' (release_slot b db.companion).bookings ≡ insert b.id b' db.companion.bookings
  unfolding release_slot
  released b' = rw (free_slot-bookings b.slot_id db.companion) refl

  move_Moved :
      (action : BookingAction)
      → Yields (λ b' db'. Moved action uid b db b' db') (move_booking env action uid reason b db)
  unfolding move_booking save save_booking on_companion publish enqueue cancelled_booking
      is_companions
  move_Moved confirm = by_companion confirm _ λ mine.
      in_status confirm (is_paid_booking b.status) _ λ paid. record {
        step = confirm_step b.status paid;
        by = λ _. mine;
        same = refl;
        written = refl;
      }
  move_Moved decline = by_companion decline _ λ mine.
      in_status decline (awaits_payment b.status || is_paid_booking b.status) _ λ fine. record {
        step = decline_step b.status fine;
        by = λ _. mine;
        same = refl;
        written = released _;
      }
  move_Moved start = by_companion start _ λ mine.
      in_status start (is_paid_booking b.status) _ λ paid. record {
        step = start_step b.status paid;
        by = λ _. mine;
        same = refl;
        written = refl;
      }
  move_Moved complete =
      Yields-guard (λ b' db'. Moved complete uid b db b' db')
        (not (b.companion_id == uid || b.buyer_id == uid)) (app_error companion_forbidden 403) _ db
        λ _. in_status complete (is_running b.status) _ λ running. record {
          step = complete_step b.status running;
          by = λ e. cc;
          same = refl;
          written = refl;
        }
  move_Moved withdraw =
      Yields-guard (λ b' db'. Moved withdraw uid b db b' db') (is_closed b.status)
        (app_error booking_invalid 409) _ db
        λ live. record {
          step = withdrawn b.status live;
          by = λ e. cc;
          same = refl;
          written = released _;
        }
  move_Moved (reschedule none) = by_companion (reschedule none) _ (λ mine. tt)
  move_Moved (reschedule (some t)) =
      by_companion (reschedule (some t)) _ λ mine. record {
        step = rescheduled t b.status;
        by = λ _. mine;
        same = refl;
        written = refl;
      }

-- The party of a booking that a user may move.
party_found :
    (uid : ℕ) (found : Option CompanionBooking) (env : Env) (b : CompanionBooking)
    → booking_for env uid found ≡ some b
    → (found ≡ some b) × ((b.buyer_id ≡ uid) ⊎ (b.companion_id ≡ uid))
unfolding booking_for
party_found uid none env b e = cc
party_found uid (some c) env b e = elim (Bool-cases (c.buyer_id == uid)) [
  | inl buys ↦ (ground (arith, e, buys), inl (ground (arith, e, buys)))
  | inr other ↦ (ground (arith, e, other), inr (ground (arith, e, other)))
]

-- A transition that commits was asked for by the booking's buyer or companion, and by the companion where
-- only the companion may take the action. It took the booking along a step of the life cycle, and changed
-- neither whose booking it is, its companion, service, slot and order, its price, nor when it was paid.
pub transition_steps :
    (env : Env) (uid booking_id : ℕ) (action : BookingAction) (reason : Option String) (db : Db)
    → Yields
        (λ b' db'.
          (b : CompanionBooking) × (lookup booking_id db.companion.bookings ≡ some b)
          × ((b.buyer_id ≡ uid) ⊎ (b.companion_id ≡ uid))
          × Moved action uid b db b' db')
        (transition env uid booking_id action reason db)
unfolding transition
transition_steps env uid booking_id action reason db =
    let found : Option CompanionBooking = lookup booking_id db.companion.bookings in
    let R : CompanionBooking → Db → Type 0 = λ b' db'.
      (b : CompanionBooking) × (lookup booking_id db.companion.bookings ≡ some b)
      × ((b.buyer_id ≡ uid) ⊎ (b.companion_id ≡ uid))
      × Moved action uid b db b' db' in
    Yields-or_raise R (booking_for env uid found) (app_error booking_not_found 404) _ db λ b e.
      let (at, party) = party_found uid found env b e in
      Yields-map (λ b' db'. Moved action uid b db b' db') R
        (move_booking env action uid reason b db) (λ b' db' m. (b, at, party, m))
        (move_Moved env uid reason b db action)

-- No step leaves a closed status.
step_closed :
    (action : BookingAction) (s s' : BookingStatus) → Step action s s' → is_closed s ≡ true → s' ≡ s
unfolding is_closed
step_closed _ _ _ confirmed c = refl
step_closed _ _ _ declined_first c = cc
step_closed _ _ _ declined_unpaid c = cc
step_closed _ _ _ declined_paid c = cc
step_closed _ _ _ begun c = cc
step_closed _ _ _ finished c = cc
step_closed _ _ _ (withdrawn s live) c = cc
step_closed _ _ _ (rescheduled t s) c = refl

-- A transition that commits on a booking that was completed, cancelled or refunded keeps its status.
pub closed_stays :
    (env : Env) (uid booking_id : ℕ) (action : BookingAction) (reason : Option String) (db : Db)
    (b : CompanionBooking)
    → lookup booking_id db.companion.bookings ≡ some b
    → is_closed b.status ≡ true
    → Yields (λ b' _. b'.status ≡ b.status) (transition env uid booking_id action reason db)
closed_stays env uid booking_id action reason db b found closed =
    Yields-map _ (λ b' _. b'.status ≡ b.status) (transition env uid booking_id action reason db)
      (λ b' db' (c, at, party, m).
        let same : c.status ≡ b.status = ground (arith, at, found) in
        step_closed action c.status b'.status m.step (ground (arith, same, closed)) ∙ same)
      (transition_steps env uid booking_id action reason db)
