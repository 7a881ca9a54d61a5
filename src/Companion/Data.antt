-- ===== src/Companion/Data.antt =====
-- app/models/companion.py: the tables of profiles, services, slots and bookings, and what
-- `mark_booking_paid` and `_release_slot` of app/modules/companion/service.py do to them.
use dating_backend.Prelude.{
  ℕ, ◌+◌, String, Bool, true, false, Option, none, some, if◌then◌else◌, or_else,
}
use dating_backend.Prelude.Int.{ℤ}
use dating_backend.Shared.Table.{Table, lookup, insert}

pub data CompanionProfileStatus : Type 0 where
  pending active paused banned rejected : CompanionProfileStatus

pub data SlotStatus : Type 0 where
  open_slot held booked closed : SlotStatus

pub data BookingStatus : Type 0 where
  pending_confirm awaiting_payment paid in_progress completed cancelled refunded : BookingStatus

pub record CompanionProfile : Type 0 where
  pub user_id : ℕ
  pub status : CompanionProfileStatus
  pub order_count : ℕ
  pub rating_count : ℕ

pub record CompanionService : Type 0 where
  pub id : ℕ
  pub companion_id : ℕ
  pub title : String
  pub price_cents : ℕ
  pub min_units : ℕ
  pub active : Bool

pub record CompanionSlot : Type 0 where
  pub id : ℕ
  pub companion_id : ℕ
  pub start_at : ℕ
  pub end_at : ℕ
  pub status : SlotStatus
  pub hold_expires_at : Option ℕ

pub record CompanionBooking : Type 0 where
  pub id : ℕ
  pub companion_id : ℕ
  pub buyer_id : ℕ
  pub service_id : Option ℕ
  pub slot_id : Option ℕ
  pub order_id : Option ℕ
  pub units : ℕ
  pub amount_cents : ℤ
  pub status : BookingStatus
  pub scheduled_at : Option ℕ
  pub confirmed_at : Option ℕ
  pub paid_at : Option ℕ
  pub started_at : Option ℕ
  pub completed_at : Option ℕ
  pub cancelled_at : Option ℕ
  pub cancel_reason : Option String
  pub idempotency_key : Option String

pub record Bookings : Type 0 where
  pub profiles : Table CompanionProfile
  pub services : Table CompanionService
  pub slots : Table CompanionSlot
  pub bookings : Table CompanionBooking
  pub next_id : ℕ

unfoldable pub save_booking : CompanionBooking → Bookings → Bookings
save_booking booking b = record b { bookings = insert booking.id booking b.bookings }

unfoldable pub save_slot : CompanionSlot → Bookings → Bookings
save_slot slot b = record b { slots = insert slot.id slot b.slots }

-- The statuses from which `mark_booking_paid` goes on.
unfoldable pub awaits_payment : BookingStatus → Bool
awaits_payment awaiting_payment = true
awaits_payment pending_confirm = true
awaits_payment _ = false

unfoldable pub paid_booking : ℕ → CompanionBooking → CompanionBooking
paid_booking now booking = record booking {
  status = paid;
  paid_at = some now;
  confirmed_at = some (or_else booking.confirmed_at now);
}

-- `slot.status = BOOKED; slot.hold_expires_at = None`, where the booking's slot still exists.
unfoldable pub book_found : Option CompanionSlot → Bookings → Bookings
unfolding save_slot
book_found none b = b
book_found (some slot) b = save_slot (record slot { status = booked; hold_expires_at = none }) b

unfoldable pub book_slot : Option ℕ → Bookings → Bookings
unfolding book_found
book_slot none b = b
book_slot (some slot_id) b = book_found (lookup slot_id b.slots) b

unfoldable pub count_found : ℕ → Option CompanionProfile → Bookings → Bookings
count_found companion_id none b = b
count_found companion_id (some profile) b = record b {
  profiles =
      insert companion_id (record profile { order_count = profile.order_count + 1 }) b.profiles;
}

unfoldable pub count_order : ℕ → Bookings → Bookings
unfolding count_found
count_order companion_id b = count_found companion_id (lookup companion_id b.profiles) b

-- The writes of `mark_booking_paid` to these tables.
unfoldable pub settle_booking : ℕ → CompanionBooking → Bookings → Bookings
unfolding paid_booking save_booking book_slot count_order
settle_booking now booking b =
    count_order booking.companion_id
      (book_slot booking.slot_id (save_booking (paid_booking now booking) b))

unfoldable pub is_taken : SlotStatus → Bool
is_taken held = true
is_taken booked = true
is_taken _ = false

-- `_release_slot`
unfoldable pub free_found : Option CompanionSlot → Bookings → Bookings
unfolding is_taken save_slot
free_found none b = b
free_found (some slot) b =
    if is_taken slot.status
    then save_slot (record slot { status = open_slot; hold_expires_at = none }) b
    else b

unfoldable pub free_slot : Option ℕ → Bookings → Bookings
unfolding free_found
free_slot none b = b
free_slot (some slot_id) b = free_found (lookup slot_id b.slots) b

unfoldable pub release_slot : CompanionBooking → Bookings → Bookings
unfolding free_slot
release_slot booking b = free_slot booking.slot_id b
