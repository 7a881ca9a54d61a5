-- ===== src/Companion/Progress.antt =====
-- Every step of the life cycle can be taken by who may take it.
use dating_backend.Companion.Steps.{
  Step, is_companions, confirmed, declined_first, declined_unpaid, declined_paid, begun, finished,
  withdrawn, rescheduled,
}
use dating_backend.Prelude.{
  ℕ, ◌≡◌, refl, String, Bool, true, Option, some, not, ◌||◌, ◌==◌, arith, ◌∙◌, ap,
}
use dating_backend.Shared.Errors.{app_error, companion_forbidden, booking_invalid}
use dating_backend.Shared.Action.{Action, ◌>>◌, raise_if, ◌>>=◌}
use dating_backend.Shared.Action.Keeps.{Returns, Returns-guard, Returns-map, Returns-and}
use dating_backend.Shared.Table.{lookup, lookup-insert_at}
use dating_backend.Events.{enqueue}
use dating_backend.Commerce.Data.{Db, Env, on_companion, publish}
use dating_backend.Companion.Data.{CompanionBooking, BookingStatus, awaits_payment, save_booking}
use dating_backend.Companion.Booking.{
  BookingAction, is_paid_booking, is_running, is_closed, cancelled_booking, save, move_booking,
  booking_for, transition,
}
use dating_backend.Companion.Lifecycle.{transition_steps}

module _ (env : Env) (uid : ℕ) (reason : Option String) (b : CompanionBooking) (db : Db) where
  by_its_companion :
      (R : CompanionBooking → Db → Type 0) (m : Action Db CompanionBooking)
      → b.companion_id ≡ uid
      → Returns R (m db)
      → Returns R
          ((raise_if (not (b.companion_id == uid)) (app_error companion_forbidden 403) >> m) db)
  by_its_companion R m mine h =
      Returns-guard R (not (b.companion_id == uid)) (app_error companion_forbidden 403) m db
        (ground (arith, mine)) h

  in_its_status :
      (R : CompanionBooking → Db → Type 0) (test : BookingStatus → Bool) (s : BookingStatus)
      (m : Action Db CompanionBooking)
      → b.status ≡ s
      → test s ≡ true
      → Returns R (m db)
      → Returns R ((raise_if (not (test b.status)) (app_error booking_invalid 409) >> m) db)
  in_its_status R test s m e fits h =
      let now_fits : test b.status ≡ true = ap test e ∙ fits in
      Returns-guard R (not (test b.status)) (app_error booking_invalid 409) m db
        (ground (arith, now_fits)) h

  may_decline : BookingStatus → Bool
  may_decline s = awaits_payment s || is_paid_booking s

  move_commits :
      (action : BookingAction) (s s' : BookingStatus)
      → Step action s s'
      → b.status ≡ s
      → (b.buyer_id == uid || b.companion_id == uid) ≡ true
      → (is_companions action ≡ true → b.companion_id ≡ uid)
      → Returns (λ b' _. b'.status ≡ s') (move_booking env action uid reason b db)
  unfolding move_booking save save_booking on_companion publish enqueue cancelled_booking
      is_companions is_paid_booking awaits_payment is_running may_decline
  move_commits _ _ _ confirmed e party mine =
      by_its_companion _ _ (mine refl)
        (in_its_status _ is_paid_booking BookingStatus.paid _ e refl e)
  move_commits _ _ _ declined_first e party mine =
      by_its_companion _ _ (mine refl)
        (in_its_status _ may_decline BookingStatus.pending_confirm _ e refl refl)
  move_commits _ _ _ declined_unpaid e party mine =
      by_its_companion _ _ (mine refl)
        (in_its_status _ may_decline BookingStatus.awaiting_payment _ e refl refl)
  move_commits _ _ _ declined_paid e party mine =
      by_its_companion _ _ (mine refl)
        (in_its_status _ may_decline BookingStatus.paid _ e refl refl)
  move_commits _ _ _ begun e party mine =
      by_its_companion _ _ (mine refl)
        (in_its_status _ is_paid_booking BookingStatus.paid _ e refl refl)
  move_commits _ _ _ finished e party mine =
      Returns-guard _ (not (b.companion_id == uid || b.buyer_id == uid))
        (app_error companion_forbidden 403) _ db (ground (arith, party))
        (in_its_status _ is_running BookingStatus.in_progress _ e refl refl)
  move_commits _ _ _ (withdrawn s live) e party mine =
      Returns-guard _ (is_closed b.status) (app_error booking_invalid 409) _ db
        (ap is_closed e ∙ live) refl
  move_commits _ _ _ (rescheduled t s) e party mine = by_its_companion _ _ (mine refl) e

transition-Returns :
    (env : Env) (uid booking_id : ℕ) (action : BookingAction) (reason : Option String) (db : Db)
    (b : CompanionBooking) (s' : BookingStatus)
    → lookup booking_id db.companion.bookings ≡ some b
    → (b.buyer_id == uid || b.companion_id == uid) ≡ true
    → (is_companions action ≡ true → b.companion_id ≡ uid)
    → Step action b.status s'
    → Returns (λ b' _. b'.status ≡ s') (transition env uid booking_id action reason db)
unfolding transition booking_for
transition-Returns env uid booking_id action reason db b s' found party mine step =
    rw (found, Returns)
      (rw (party, ◌>>=◌) (move_commits env uid reason b db action b.status s' step refl party mine))

-- Whoever is a booking's buyer or companion, and its companion where only the companion may take the action,
-- takes it along any step of its life cycle: the transition commits, and stores the booking with the status that
-- the step names.
pub transition_commits :
    (env : Env) (uid booking_id : ℕ) (action : BookingAction) (reason : Option String) (db : Db)
    (b : CompanionBooking) (s' : BookingStatus)
    → lookup booking_id db.companion.bookings ≡ some b
    → (b.buyer_id == uid || b.companion_id == uid) ≡ true
    → (is_companions action ≡ true → b.companion_id ≡ uid)
    → Step action b.status s'
    → Returns
        (λ b' db'. (b'.status ≡ s') × (lookup b.id db'.companion.bookings ≡ some b'))
        (transition env uid booking_id action reason db)
transition_commits env uid booking_id action reason db b s' found party mine step =
    Returns-map _ _ (transition env uid booking_id action reason db)
      (λ b' db' (at_end, (c, at, _, m)).
        let same : c.id ≡ b.id = ground (arith, at, found) in
        (at_end, rw m.written (lookup-insert_at c.id b.id b' db.companion.bookings same)))
      (Returns-and _ _ (transition env uid booking_id action reason db)
        (transition-Returns env uid booking_id action reason db b s' found party mine step)
        (transition_steps env uid booking_id action reason db))
