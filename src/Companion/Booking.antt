-- ===== src/Companion/Booking.antt =====
-- `create_slot`, `create_booking` and `transition` of app/modules/companion/service.py.
use dating_backend.Prelude.{
  ℕ, ◌+◌, ◌*◌, String, Bool, true, false, Option, none, some, ◌&&◌, ◌||◌, not, ◌==◌, ltb, leb,
  if◌then◌else◌,
}
use dating_backend.Prelude.Int.{pos}
use dating_backend.Shared.Errors.{
  app_error, booking_invalid, booking_not_found, booking_conflict, companion_unavailable,
  companion_not_found, companion_forbidden, companion_invalid,
}
use dating_backend.Shared.Action.{Action, pure, gets, modify, or_raise, raise_if, ◌>>=◌, ◌>>◌}
use dating_backend.Shared.Table.{lookup, rows, one_or_none}
use dating_backend.Events.{DomainEventName}
use dating_backend.Commerce.Data.{
  Db, Env, Order, OrderKind, on_companion, publish, fresh_id, or_text,
}
use dating_backend.Commerce.Orders.{OrderRequest, create_order, same_key}
use dating_backend.Companion.Data.{
  CompanionProfile, CompanionProfileStatus, CompanionService, CompanionSlot, CompanionBooking,
  BookingStatus, SlotStatus, awaits_payment, save_booking, save_slot, release_slot, open_slot, held,
}
use text.Mathlib.Text.{◌==◌ as str_eq}

unfoldable pub is_active_profile : CompanionProfileStatus → Bool
is_active_profile CompanionProfileStatus.active = true
is_active_profile _ = false

unfoldable pub is_open_slot : SlotStatus → Bool
is_open_slot open_slot = true
is_open_slot _ = false

unfoldable pub is_held : SlotStatus → Bool
is_held held = true
is_held _ = false

unfoldable pub bookable : Option CompanionProfile → Option CompanionProfile
bookable none = none
bookable (some p) = if is_active_profile p.status then some p else none

unfoldable pub offered_by : ℕ → Option CompanionService → Option CompanionService
offered_by companion_id none = none
offered_by companion_id (some svc) =
    if svc.companion_id == companion_id && svc.active then some svc else none

unfoldable pub slot_of : ℕ → Option CompanionSlot → Option CompanionSlot
slot_of companion_id none = none
slot_of companion_id (some slot) = if slot.companion_id == companion_id then some slot else none

unfoldable pub is_over : ℕ → Option ℕ → Bool
is_over now none = false
is_over now (some t) = ltb t now

-- A slot that is open, or whose hold has run out.
unfoldable pub is_free : ℕ → CompanionSlot → Bool
unfolding is_held is_open_slot is_over
is_free now slot =
    is_open_slot slot.status || (is_held slot.status && is_over now slot.hold_expires_at)

-- The request of `create_booking`.
pub record BookingRequest : Type 0 where
  pub companion_id : ℕ
  pub service_id : ℕ
  pub slot_id : ℕ
  pub units : ℕ
  pub idempotency_key : Option String

unfoldable pub earlier_booking : ℕ → Option String → Action Db (Option CompanionBooking)
earlier_booking uid none = pure none
earlier_booking uid (some key) =
    if str_eq key ""
    then pure none
    else gets (λ db.
      rows (λ (b : CompanionBooking). b.buyer_id == uid && same_key key b.idempotency_key)
        db.companion.bookings)
      >>= one_or_none

module _ (env : Env) where
  unfoldable pub new_booking :
      ℕ → ℕ → BookingRequest → CompanionService → CompanionSlot → CompanionBooking
  new_booking id uid r svc slot = record {
    id = id;
    companion_id = r.companion_id;
    buyer_id = uid;
    service_id = some r.service_id;
    slot_id = some r.slot_id;
    order_id = none;
    units = r.units;
    amount_cents = pos (svc.price_cents * r.units);
    status = BookingStatus.pending_confirm;
    scheduled_at = some slot.start_at;
    confirmed_at = none;
    paid_at = none;
    started_at = none;
    completed_at = none;
    cancelled_at = none;
    cancel_reason = none;
    idempotency_key = r.idempotency_key;
  }

  unfoldable pub booking_key : Option String → Option String
  booking_key none = none
  booking_key (some key) =
      if str_eq key "" then none else some (Prim.Native.String.◌++◌ "booking:" key)

  unfoldable pub booking_order : CompanionBooking → CompanionService → OrderRequest
  unfolding booking_key
  booking_order booking svc = record {
    kind = some OrderKind.companion_booking;
    subject_id = some booking.id;
    amount_cents = some booking.amount_cents;
    subject_title = Prim.Native.String.◌++◌ svc.title " · 陪玩预约";
    discount_cents = pos 0;
    meta = record { fee_cents = none; plan_code = none };
    idempotency_key = booking_key booking.idempotency_key;
  }

  unfoldable pub held_slot : CompanionSlot → CompanionSlot
  held_slot slot = record slot { status = held; hold_expires_at = some (env.now + 15 * 60) }

  unfoldable pub ordered_booking : CompanionBooking → Order → CompanionBooking
  ordered_booking booking order = record booking {
    order_id = some order.id;
    status = BookingStatus.awaiting_payment;
  }

  -- The slot is held, and the booking and its order are written.
  unfoldable pub place_booking :
      ℕ → BookingRequest → CompanionService → CompanionSlot → Action Db CompanionBooking
  unfolding new_booking booking_order held_slot ordered_booking
  place_booking uid r svc slot = do
    id ← fresh_id
    let booking = new_booking id uid r svc slot
    on_companion (modify (λ b. save_slot (held_slot slot) (save_booking booking b)))
    order ← create_order env uid (booking_order booking svc)
    on_companion (modify (save_booking (ordered_booking booking order)))
    publish env.now DomainEventName.booking_created "booking" booking.id
    pure (ordered_booking booking order)

  unfoldable pub book_free_slot : ℕ → BookingRequest → Action Db CompanionBooking
  unfolding bookable offered_by slot_of is_free place_booking
  book_free_slot uid r = do
    profile ← gets (λ db. lookup r.companion_id db.companion.profiles)
    or_raise (bookable profile) (app_error companion_unavailable 409)
    found ← gets (λ db. lookup r.service_id db.companion.services)
    svc ← or_raise (offered_by r.companion_id found) (app_error companion_not_found 404)
    raise_if (ltb r.units svc.min_units) (app_error booking_invalid 400)
    slot? ← gets (λ db. lookup r.slot_id db.companion.slots)
    slot ← or_raise (slot_of r.companion_id slot?) (app_error companion_not_found 404)
    raise_if (not (is_free env.now slot)) (app_error booking_conflict 409)
    place_booking uid r svc slot

  unfoldable pub hit_or_book :
      ℕ → BookingRequest → Option CompanionBooking → Action Db CompanionBooking
  unfolding book_free_slot
  hit_or_book uid r none = book_free_slot uid r
  hit_or_book uid r (some booking) = pure booking

  unfoldable pub create_booking : ℕ → BookingRequest → Action Db CompanionBooking
  unfolding earlier_booking hit_or_book
  create_booking uid r = do
    raise_if (r.companion_id == uid) (app_error booking_invalid 400)
    hit ← earlier_booking uid r.idempotency_key
    hit_or_book uid r hit

-- The actions of `transition`: the router has a route for each, and passes no other name.
pub data BookingAction : Type 0 where
  confirm decline start complete withdraw : BookingAction
  reschedule : Option ℕ → BookingAction

unfoldable pub is_paid_booking : BookingStatus → Bool
is_paid_booking BookingStatus.paid = true
is_paid_booking _ = false

unfoldable pub is_running : BookingStatus → Bool
is_running BookingStatus.in_progress = true
is_running _ = false

-- The statuses that `cancel` refuses.
unfoldable pub is_closed : BookingStatus → Bool
is_closed BookingStatus.completed = true
is_closed BookingStatus.cancelled = true
is_closed BookingStatus.refunded = true
is_closed _ = false

unfoldable pub cancelled_booking : ℕ → String → CompanionBooking → CompanionBooking
cancelled_booking now reason booking = record booking {
  status = BookingStatus.cancelled;
  cancelled_at = some now;
  cancel_reason = some reason;
}

module _ (env : Env) where
  unfoldable pub save : CompanionBooking → Action Db CompanionBooking
  save booking = on_companion (modify (save_booking booking)) >> pure booking

  -- The branches of `transition` on a booking of the user's.
  unfoldable pub move_booking :
      BookingAction → ℕ → Option String → CompanionBooking → Action Db CompanionBooking
  unfolding save is_paid_booking is_running is_closed cancelled_booking or_text
  move_booking confirm uid reason b =
      raise_if (not (b.companion_id == uid)) (app_error companion_forbidden 403)
      >> raise_if (not (is_paid_booking b.status)) (app_error booking_invalid 409)
      >> save (record b { confirmed_at = some env.now })
  move_booking decline uid reason b =
      raise_if (not (b.companion_id == uid)) (app_error companion_forbidden 403)
      >> raise_if (not (awaits_payment b.status || is_paid_booking b.status))
          (app_error booking_invalid 409)
      >> on_companion (modify (release_slot b))
      >> save (cancelled_booking env.now (or_text reason "陪玩师拒绝") b)
  move_booking start uid reason b =
      raise_if (not (b.companion_id == uid)) (app_error companion_forbidden 403)
      >> raise_if (not (is_paid_booking b.status)) (app_error booking_invalid 409)
      >> save (record b { status = BookingStatus.in_progress; started_at = some env.now })
  move_booking complete uid reason b =
      raise_if (not (b.companion_id == uid || b.buyer_id == uid))
        (app_error companion_forbidden 403)
      >> raise_if (not (is_running b.status)) (app_error booking_invalid 409)
      >> publish env.now DomainEventName.booking_completed "booking" b.id
      >> save (record b { status = BookingStatus.completed; completed_at = some env.now })
  move_booking withdraw uid reason b =
      raise_if (is_closed b.status) (app_error booking_invalid 409)
      >> on_companion (modify (release_slot b))
      >> publish env.now DomainEventName.booking_cancelled "booking" b.id
      >> save (cancelled_booking env.now (or_text reason "用户取消") b)
  move_booking (reschedule at) uid reason b =
      raise_if (not (b.companion_id == uid)) (app_error companion_forbidden 403)
      >> or_raise at (app_error booking_invalid 400)
      >>= λ t. save (record b { scheduled_at = some t })

  -- `_get_booking_for`
  unfoldable pub booking_for : ℕ → Option CompanionBooking → Option CompanionBooking
  booking_for uid none = none
  booking_for uid (some b) = if b.buyer_id == uid || b.companion_id == uid then some b else none

  unfoldable pub transition : ℕ → ℕ → BookingAction → Option String → Action Db CompanionBooking
  unfolding booking_for move_booking
  transition uid booking_id action reason = do
    found ← gets (λ db. lookup booking_id db.companion.bookings)
    b ← or_raise (booking_for uid found) (app_error booking_not_found 404)
    move_booking action uid reason b

-- `create_slot`
unfoldable pub create_slot : ℕ → ℕ → ℕ → Action Db CompanionSlot
create_slot uid start_at end_at = do
  profile ← gets (λ db. lookup uid db.companion.profiles)
  or_raise profile (app_error companion_not_found 404)
  raise_if (leb end_at start_at) (app_error companion_invalid 400)
  id ← fresh_id
  let slot : CompanionSlot = record {
    id = id;
    companion_id = uid;
    start_at = start_at;
    end_at = end_at;
    status = open_slot;
    hold_expires_at = none;
  }
  on_companion (modify (save_slot slot))
  pure slot
