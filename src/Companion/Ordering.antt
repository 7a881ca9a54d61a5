-- ===== src/Companion/Ordering.antt =====
-- What placing a booking writes: the order of a booking leaves the companion service's tables alone,
-- so that the held slot and the booking are all that changes there.
use dating_backend.Prelude.{
  ℕ, ◌≡◌, refl, String, false, Option, none, some, List, [], ◌∷◌, arith, or_else, ap, ◌+◌,
}
use dating_backend.Prelude.Int.{ℤ, pos, ◌≤ℤ◌, -ℤ_parts, ltb_ℤ, leb_ℤ}
use dating_backend.Shared.Errors.{app_error, order_invalid}
use dating_backend.Shared.Action.{◌>>=◌, ◌>>◌, raise_if}
use dating_backend.Shared.Action.Keeps.{Yields, Yields-guard, Yields-bind, Keeps, keeps_rules}
use dating_backend.Shared.Table.{one_or_none}
use dating_backend.Events.{enqueue}
use dating_backend.Commerce.Data.{
  Db, Env, Order, OrderKind, fresh_id, save_order, publish, on_companion,
}
use dating_backend.Commerce.Orders.{
  Quote, OrderRequest, quote, quote_booking, find_booking, is_below, earlier_order, new_order,
  settle_if_free, place_order, hit_or_place, create_order,
}
use dating_backend.Companion.Data.{
  Bookings, CompanionBooking, CompanionService, CompanionSlot, save_booking, save_slot,
}
use dating_backend.Companion.Booking.{
  BookingRequest, new_booking, booking_order, held_slot, ordered_booking, place_booking,
}

-- The companion service's tables are these.
module _ (c : Bookings) where
  abbrev IsStill : Db → Type 0
  IsStill db = db.companion ≡ c

  save_order-IsStill : (o : Order) → Keeps IsStill (save_order o)
  unfolding save_order
  save_order-IsStill o = record { at = λ db h. h }

  fresh_id-IsStill : Keeps IsStill fresh_id
  unfolding fresh_id
  fresh_id-IsStill = record { at = λ db h. h }

  one_or_none-IsStill : {A : Type 0} (l : List A) → Keeps IsStill (one_or_none l)
  one_or_none-IsStill [] = record { at = λ db h. h }
  one_or_none-IsStill (a ∷ []) = record { at = λ db h. h }
  one_or_none-IsStill (a ∷ b ∷ l) = record { at = λ db h. tt }

  earlier_order-IsStill : (uid : ℕ) (key : Option String) → Keeps IsStill (earlier_order uid key)
  unfolding earlier_order
  earlier_order-IsStill uid none = search keeps_rules
  earlier_order-IsStill uid (some key) = search (keeps_rules, one_or_none-IsStill) depth 8

  find_booking-IsStill : (subject : Option ℕ) → Keeps IsStill (find_booking subject)
  unfolding find_booking
  find_booking-IsStill none = search keeps_rules
  find_booking-IsStill (some id) = search keeps_rules depth 8

  -- A booking is quoted at the price asked for, which is at least a cent.
  quote_booking-IsStill :
      (subject : Option ℕ) (title : String) (cents : ℤ) (db : Db)
      → IsStill db
      → Yields
          (λ q db'. (pos 1 ≤ℤ or_else q.cents (pos 0)) × IsStill db')
          (quote_booking subject title (some cents) db)
  unfolding quote_booking is_below
  quote_booking-IsStill subject title cents db h =
      Yields-guard _ (ltb_ℤ cents (pos 1)) (app_error order_invalid 400) _ db λ fine.
        Yields-bind (λ _. IsStill) _ (find_booking subject) _ db
          ((find_booking-IsStill subject).at db h) λ _ db' h'. (ground (arith, fine), h')

  -- An order of a positive price that has no discount is not settled when it is placed.
  settle_if_free-IsStill :
      (env : Env) (id uid : ℕ) (k : OrderKind) (r : OrderRequest) (q : Quote) (cents : ℤ)
      → r.discount_cents ≡ pos 0
      → pos 1 ≤ℤ cents
      → Keeps IsStill (settle_if_free env (new_order env id uid k r q cents))
  unfolding settle_if_free new_order
  settle_if_free-IsStill env id uid k r q cents whole positive =
      let due : leb_ℤ (new_order env id uid k r q cents).payable_cents (pos 0) ≡ false =
        ground (arith, whole, -ℤ_parts cents (pos 0)) in
      rw due (search keeps_rules)

  placed-IsStill :
      (env : Env) (uid : ℕ) (k : OrderKind) (r : OrderRequest) (q : Quote)
      → r.discount_cents ≡ pos 0
      → pos 1 ≤ℤ or_else q.cents (pos 0)
      → Keeps IsStill (
          raise_if (is_below (pos 0) q.cents) (app_error order_invalid 400) >> fresh_id >>= λ id.
          save_order (new_order env id uid k r q (or_else q.cents (pos 0)))
          >> settle_if_free env (new_order env id uid k r q (or_else q.cents (pos 0))))
  placed-IsStill env uid k r q whole positive =
      let settled : (id : ℕ)
          → Keeps IsStill
              (settle_if_free env (new_order env id uid k r q (or_else q.cents (pos 0)))) =
        λ id. settle_if_free-IsStill env id uid k r q (or_else q.cents (pos 0)) whole positive in
      search (keeps_rules, fresh_id-IsStill, save_order-IsStill, settled) depth 10

  place_order-IsStill :
      (env : Env) (uid : ℕ) (r : OrderRequest) (cents : ℤ)
      → r.discount_cents ≡ pos 0
      → r.amount_cents ≡ some cents
      → Keeps IsStill (place_order env uid OrderKind.companion_booking r)
  unfolding place_order quote
  place_order-IsStill env uid r cents whole priced = record {
    at = λ db h.
        Yields-bind (λ q db'. (pos 1 ≤ℤ or_else q.cents (pos 0)) × IsStill db') (λ _. IsStill)
          (quote_booking r.subject_id r.subject_title r.amount_cents) _ db
          (rw priced (quote_booking-IsStill r.subject_id r.subject_title cents db h))
          λ q db' (positive, h').
            (placed-IsStill env uid OrderKind.companion_booking r q whole positive).at db' h';
  }

  hit_or_place-IsStill :
      (env : Env) (uid : ℕ) (r : OrderRequest) (cents : ℤ) (hit : Option Order)
      → r.discount_cents ≡ pos 0
      → r.amount_cents ≡ some cents
      → Keeps IsStill (hit_or_place env uid OrderKind.companion_booking r hit)
  unfolding hit_or_place
  hit_or_place-IsStill env uid r cents none whole priced =
      place_order-IsStill env uid r cents whole priced
  hit_or_place-IsStill env uid r cents (some order) whole priced = search keeps_rules

  -- The order of a booking leaves the companion service's tables alone.
  create_order-IsStill :
      (env : Env) (uid : ℕ) (b : CompanionBooking) (svc : CompanionService)
      → Keeps IsStill (create_order env uid (booking_order env b svc))
  unfolding create_order booking_order
  create_order-IsStill env uid b svc =
      let placed : (hit : Option Order)
          → Keeps IsStill
              (hit_or_place env uid OrderKind.companion_booking (booking_order env b svc) hit) =
        λ hit.
          hit_or_place-IsStill env uid (booking_order env b svc) b.amount_cents hit refl refl in
      let found : Keeps IsStill (
          earlier_order uid (booking_order env b svc).idempotency_key >>= λ hit.
          hit_or_place env uid OrderKind.companion_booking (booking_order env b svc) hit) =
        search (keeps_rules, earlier_order-IsStill, placed) depth 8 in
      record { at = found.at }

-- What placing the booking of a free slot left: the slot held, and the booking under its order.
pub record Placed (env : Env) (uid : ℕ) (r : BookingRequest) (svc : CompanionService)
    (slot : CompanionSlot) (db : Db) (b : CompanionBooking) (db' : Db) : Type 0 where
  pub order : Order
  pub booking : b ≡ ordered_booking env (new_booking env db.next_id uid r svc slot) order
  pub tables :
      db'.companion
      ≡ save_booking b (
          save_slot
            (held_slot env slot)
            (save_booking (new_booking env db.next_id uid r svc slot) db.companion))

pub place_booking-Placed :
    (env : Env) (uid : ℕ) (r : BookingRequest) (svc : CompanionService) (slot : CompanionSlot)
    (db : Db)
    → Yields (Placed env uid r svc slot db) (place_booking env uid r svc slot db)
unfolding place_booking fresh_id on_companion publish enqueue
place_booking-Placed env uid r svc slot db =
    let b : CompanionBooking = new_booking env db.next_id uid r svc slot in
    let c : Bookings = save_slot (held_slot env slot) (save_booking b db.companion) in
    Yields-bind (λ _. IsStill c) (Placed env uid r svc slot db)
      (create_order env uid (booking_order env b svc)) _
      (record db { next_id = db.next_id + 1; companion = c })
      ((create_order-IsStill c env uid b svc).at _ refl)
      λ order db' still. record {
        order = order;
        booking = refl;
        tables = ap (save_booking (ordered_booking env b order)) still;
      }
