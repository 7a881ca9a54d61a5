-- ===== src/Companion/Steps.antt =====
-- The steps of a booking's life: which action takes which status to which.
use dating_backend.Prelude.Int.{ℤ}
use dating_backend.Prelude.{ℕ, ◌≡◌, String, Bool, true, false, Option, some, ◌||◌}
use dating_backend.Companion.Data.{CompanionBooking, BookingStatus, awaits_payment}
use dating_backend.Companion.Booking.{
  BookingAction, confirm, decline, start, complete, withdraw, reschedule, is_paid_booking,
  is_running, is_closed,
}

-- The status that an action takes a booking from, and to.
pub data Step : BookingAction → BookingStatus → BookingStatus → Type 0 where
  confirmed : Step confirm BookingStatus.paid BookingStatus.paid
  declined_first : Step decline BookingStatus.pending_confirm BookingStatus.cancelled
  declined_unpaid : Step decline BookingStatus.awaiting_payment BookingStatus.cancelled
  declined_paid : Step decline BookingStatus.paid BookingStatus.cancelled
  begun : Step start BookingStatus.paid BookingStatus.in_progress
  finished : Step complete BookingStatus.in_progress BookingStatus.completed
  withdrawn : (s : BookingStatus) → is_closed s ≡ false → Step withdraw s BookingStatus.cancelled
  rescheduled : (t : ℕ) (s : BookingStatus) → Step (reschedule (some t)) s s

-- The actions that only the companion may take.
unfoldable pub is_companions : BookingAction → Bool
is_companions complete = false
is_companions withdraw = false
is_companions _ = true

-- What a booking was agreed on: whose it is, what it is of, what it costs, and when it was paid.
pub record Terms : Type 0 where
  pub id : ℕ
  pub buyer_id : ℕ
  pub companion_id : ℕ
  pub service_id : Option ℕ
  pub slot_id : Option ℕ
  pub order_id : Option ℕ
  pub units : ℕ
  pub amount_cents : ℤ
  pub paid_at : Option ℕ
  pub idempotency_key : Option String

abbrev pub terms : CompanionBooking → Terms
terms b = record {
  id = b.id;
  buyer_id = b.buyer_id;
  companion_id = b.companion_id;
  service_id = b.service_id;
  slot_id = b.slot_id;
  order_id = b.order_id;
  units = b.units;
  amount_cents = b.amount_cents;
  paid_at = b.paid_at;
  idempotency_key = b.idempotency_key;
}

pub confirm_step : (s : BookingStatus) → is_paid_booking s ≡ true → Step confirm s s
unfolding is_paid_booking
confirm_step BookingStatus.paid h = confirmed
confirm_step _ h = cc

pub start_step :
    (s : BookingStatus) → is_paid_booking s ≡ true → Step start s BookingStatus.in_progress
unfolding is_paid_booking
start_step BookingStatus.paid h = begun
start_step _ h = cc

pub complete_step :
    (s : BookingStatus) → is_running s ≡ true → Step complete s BookingStatus.completed
unfolding is_running
complete_step BookingStatus.in_progress h = finished
complete_step _ h = cc

pub decline_step :
    (s : BookingStatus)
    → (awaits_payment s || is_paid_booking s) ≡ true
    → Step decline s BookingStatus.cancelled
unfolding awaits_payment is_paid_booking
decline_step BookingStatus.pending_confirm h = declined_first
decline_step BookingStatus.awaiting_payment h = declined_unpaid
decline_step BookingStatus.paid h = declined_paid
decline_step _ h = cc
