-- ===== src/Companion/Tests.antt =====
-- Concrete bookings, on which the theorems apply.
use dating_backend.Companion.Steps.{begun}
use dating_backend.Companion.Progress.{transition_commits}
use dating_backend.Prelude.{◌≡◌, ◌⊎◌, refl, true, none, some, List, [], ◌∷◌, arith}
use dating_backend.Prelude.Int.{pos}
use dating_backend.Shared.Action.Keeps.{Yields, Returns}
use dating_backend.Shared.Table.{lookup}
use dating_backend.Commerce.Data.{Db, Env}
use dating_backend.Companion.Data.{
  CompanionBooking, BookingStatus, CompanionProfile, CompanionProfileStatus, CompanionService,
  CompanionSlot, SlotStatus,
}
use dating_backend.Companion.Booking.{
  start, complete, withdraw, BookingRequest, create_booking, transition, earlier_booking,
}
use dating_backend.Companion.Lifecycle.{Moved, transition_steps}
use dating_backend.Companion.PaidFor.{
  AllPaidFor, BookingStep, move, mark_paid, serve_bookings, serve_bookings-AllPaidFor,
  needs_payment, offer, book,
}
use dating_backend.Companion.Holding.{FreeBefore, create_booking_was_free, Holds}

abbrev env : Env
env = record {
  now = 1000;
  order_no = "SO1";
  serial_no = λ prefix. prefix;
  format_cents = λ _. "¥";
  wallet_welcome_cents = pos 500;
  payment_stub_auto_complete = true;
  payment_refund_to_wallet = true;
  payment_provider_is_stub = true;
  order_expire_minutes = 30;
}

abbrev booking : CompanionBooking
booking = record {
  id = 6;
  companion_id = 1;
  buyer_id = 2;
  service_id = some 3;
  slot_id = some 4;
  order_id = some 5;
  units = 1;
  amount_cents = pos 80;
  status = BookingStatus.awaiting_payment;
  scheduled_at = none;
  confirmed_at = none;
  paid_at = none;
  started_at = none;
  completed_at = none;
  cancelled_at = none;
  cancel_reason = none;
  idempotency_key = none;
}

-- The hold of the slot has run out.
abbrev slot : CompanionSlot
slot = record {
  id = 4;
  companion_id = 1;
  start_at = 5000;
  end_at = 6000;
  status = SlotStatus.held;
  hold_expires_at = some 900;
}

abbrev service : CompanionService
service = record {
  id = 3;
  companion_id = 1;
  title = "t";
  price_cents = 80;
  min_units = 1;
  active = true;
}

abbrev profile : CompanionProfile
profile = record {
  user_id = 1;
  status = CompanionProfileStatus.active;
  order_count = 0;
  rating_count = 0;
}

abbrev db : Db
db = record {
  wallets = record { accounts = []; ledger = []; next_id = 0 };
  orders = [];
  payments = [];
  refunds = [];
  plans = [];
  memberships = [];
  credentials = [];
  activities = [];
  companion = record {
    profiles = (1, profile) ∷ [];
    services = (3, service) ∷ [];
    slots = (4, slot) ∷ [];
    bookings = (6, booking) ∷ [];
    next_id = 0;
  };
  outbox = record { events = []; next_id = 0 };
  next_id = 10;
}

abbrev booking_request : BookingRequest
booking_request = record {
  companion_id = 1;
  service_id = 3;
  slot_id = 4;
  units = 2;
  idempotency_key = none;
}

abbrev booking_steps : List (Env × BookingStep)
booking_steps =
    (env, offer 1 7000 8000)
    ∷ (env, book 2 booking_request)
    ∷ (env, mark_paid 6)
    ∷ (env, move 1 6 start none)
    ∷ (env, move 2 6 complete none)
    ∷ (env, move 2 6 withdraw none)
    ∷ []

serve_bookings-AllPaidFor_example : AllPaidFor (serve_bookings booking_steps db)
serve_bookings-AllPaidFor_example =
    serve_bookings-AllPaidFor booking_steps db ((λ n. unfold needs_payment in cc), tt)

transition_steps_example :
    Yields
      (λ b' db'.
        (b : CompanionBooking) × (lookup 6 db.companion.bookings ≡ some b)
        × ((b.buyer_id ≡ 2) ⊎ (b.companion_id ≡ 2))
        × Moved withdraw 2 b db b' db')
      (transition env 2 6 withdraw none db)
transition_steps_example = transition_steps env 2 6 withdraw none db

abbrev done_db : Db
done_db = record db {
  companion = record {
    profiles = [];
    services = [];
    slots = [];
    bookings = (6, record booking { status = BookingStatus.completed; paid_at = some 9 }) ∷ [];
    next_id = 0;
  };
}

slot_keyed : (s : CompanionSlot) → lookup 4 db.companion.slots ≡ some s → s.id ≡ 4
unfolding lookup
slot_keyed s e = ground (arith, e)

create_booking_was_free_example :
    Yields
      (λ b db'.
        (slot : CompanionSlot) × (svc : CompanionService) × FreeBefore 1000 2 booking_request slot
          svc db
        × Holds env 2 booking_request slot svc b db')
      (create_booking env 2 booking_request db)
create_booking_was_free_example =
    create_booking_was_free env 2 booking_request db (unfold earlier_booking in refl) slot_keyed

abbrev paid_db : Db
paid_db = record db {
  companion = record {
    profiles = [];
    services = [];
    slots = [];
    bookings = (6, record booking { status = BookingStatus.paid; paid_at = some 9 }) ∷ [];
    next_id = 0;
  };
}

transition_commits_example :
    Returns
      (λ b' db'.
        (b'.status ≡ BookingStatus.in_progress) × (lookup 6 db'.companion.bookings ≡ some b'))
      (transition env 1 6 start none paid_db)
transition_commits_example =
    transition_commits env 1 6 start none paid_db
      (record booking { status = BookingStatus.paid; paid_at = some 9 }) BookingStatus.in_progress
      (unfold lookup in refl) refl (λ _. refl) begun
