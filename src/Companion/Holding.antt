-- ===== src/Companion/Holding.antt =====
-- A booking holds a slot that was free.
use dating_backend.Companion.Ordering.{Placed, place_booking-Placed}
use dating_backend.Prelude.Int.{pos}
use dating_backend.Prelude.{
  refl, ◌+◌, ◌*◌, is_some, ℕ, ◌≡◌, true, false, Option, none, some, not, ◌==◌, ltb, ◌≤◌, arith, ◌*◌,
  is_some, ◌+◌, Bool-cases, ◌⊎◌, inl, suc, ap, inr, sym, ◌∙◌,
}
use dating_backend.Shared.Errors.{
  app_error, booking_invalid, companion_unavailable, companion_not_found, booking_conflict,
}
use dating_backend.Shared.Action.{ok, ◌>>=◌}
use dating_backend.Shared.Action.Keeps.{Yields, Yields-guard, Yields-or_raise, Yields-map}
use dating_backend.Shared.Table.{lookup, lookup-insert_at}
use dating_backend.Commerce.Data.{Db, Env}
use dating_backend.Companion.Ordering.{Placed, place_booking-Placed}
use dating_backend.Companion.Data.{
  CompanionBooking, CompanionService, CompanionSlot, save_booking, BookingStatus, save_slot,
  SlotStatus, CompanionProfile, CompanionProfileStatus,
}
use dating_backend.Companion.Booking.{
  BookingRequest, create_booking, hit_or_book, earlier_booking, book_free_slot, bookable,
  offered_by, slot_of, is_free, new_booking, ordered_booking, place_booking, held_slot,
  is_active_profile, is_over, is_held, is_open_slot,
}

-- A slot that is open, or that was held until a time that is past.
abbrev pub WasFree : ℕ → CompanionSlot → Type 0
WasFree now slot =
    (slot.status ≡ SlotStatus.open_slot)
    ⊎ ((slot.status ≡ SlotStatus.held)
        × ((t : ℕ) × (slot.hold_expires_at ≡ some t) × (suc t ≤ now)))

-- What was true when the booking was made, of the slot and the service that it names.
pub record FreeBefore (now uid : ℕ) (r : BookingRequest) (slot : CompanionSlot)
    (svc : CompanionService) (db : Db) : Type 0 where
  pub at : lookup r.slot_id db.companion.slots ≡ some slot
  pub free : WasFree now slot
  pub own : slot.companion_id ≡ r.companion_id
  pub other : (r.companion_id == uid) ≡ false
  pub offered : lookup r.service_id db.companion.services ≡ some svc
  pub enough : svc.min_units ≤ r.units
  pub active : svc.active ≡ true
  pub offers : svc.companion_id ≡ r.companion_id
  pub profile : CompanionProfile
  pub known : lookup r.companion_id db.companion.profiles ≡ some profile
  pub working : profile.status ≡ CompanionProfileStatus.active

-- The booking that a request left, and the slot that it holds for a quarter of an hour.
pub record Holds (env : Env) (uid : ℕ) (r : BookingRequest) (slot : CompanionSlot)
    (svc : CompanionService) (b : CompanionBooking) (db' : Db) : Type 0 where
  pub buyer : b.buyer_id ≡ uid
  pub companion : b.companion_id ≡ r.companion_id
  pub service : b.service_id ≡ some r.service_id
  pub of_slot : b.slot_id ≡ some r.slot_id
  pub units : b.units ≡ r.units
  pub price : b.amount_cents ≡ pos (svc.price_cents * r.units)
  pub awaits : b.status ≡ BookingStatus.awaiting_payment
  pub ordered : is_some b.order_id ≡ true
  pub stored : lookup b.id db'.companion.bookings ≡ some b
  pub holds :
      lookup r.slot_id db'.companion.slots
      ≡ some (record slot { status = SlotStatus.held; hold_expires_at = some (env.now + 15 * 60) })

Placed-Holds :
    (env : Env) (uid : ℕ) (r : BookingRequest) (slot : CompanionSlot) (svc : CompanionService)
    (db : Db) (b : CompanionBooking) (db' : Db)
    → slot.id ≡ r.slot_id
    → Placed env uid r svc slot db b db'
    → Holds env uid r slot svc b db'
unfolding new_booking ordered_booking save_booking save_slot held_slot
Placed-Holds env uid r slot svc db b db' keyed p = record {
  buyer = rw p.booking refl;
  companion = rw p.booking refl;
  service = rw p.booking refl;
  of_slot = rw p.booking refl;
  units = rw p.booking refl;
  price = rw p.booking refl;
  awaits = rw p.booking refl;
  ordered = rw p.booking refl;
  stored = rw p.tables (lookup-insert_at b.id b.id b _ refl);
  holds = rw p.tables (lookup-insert_at slot.id r.slot_id _ db.companion.slots keyed);
}

offered_found :
    (k : ℕ) (o : Option CompanionService) (svc : CompanionService)
    → offered_by k o ≡ some svc
    → (o ≡ some svc) × (svc.active ≡ true) × (svc.companion_id ≡ k)
unfolding offered_by
offered_found k none svc e = cc
offered_found k (some s) svc e = ground (arith, e)

working_status :
    (s : CompanionProfileStatus) → is_active_profile s ≡ true → s ≡ CompanionProfileStatus.active
unfolding is_active_profile
working_status CompanionProfileStatus.active h = refl
working_status _ h = cc

profile_found :
    (o : Option CompanionProfile) (p : CompanionProfile)
    → bookable o ≡ some p
    → (o ≡ some p) × (p.status ≡ CompanionProfileStatus.active)
unfolding bookable
profile_found none p e = cc
profile_found (some q) p e = elim (Bool-cases (is_active_profile q.status)) [
  | inl works ↦
      let same : q ≡ p = ground (arith, e, works) in
      (
        ap some same,
        sym (ap (λ (c : CompanionProfile). c.status) same) ∙ working_status q.status works,
      )
  | inr idle ↦ ground (arith, e, idle)
]

open_status : (s : SlotStatus) → is_open_slot s ≡ true → s ≡ SlotStatus.open_slot
unfolding is_open_slot
open_status SlotStatus.open_slot h = refl
open_status _ h = cc

held_status : (s : SlotStatus) → is_held s ≡ true → s ≡ SlotStatus.held
unfolding is_held
held_status SlotStatus.held h = refl
held_status _ h = cc

time_over :
    (now : ℕ) (at : Option ℕ) → is_over now at ≡ true → (t : ℕ) × (at ≡ some t) × (suc t ≤ now)
unfolding is_over
time_over now none h = cc
time_over now (some t) h = (t, refl, ground (arith, h))

free_slots : (now : ℕ) (slot : CompanionSlot) → is_free now slot ≡ true → WasFree now slot
unfolding is_free
free_slots now slot h = elim (Bool-cases (is_open_slot slot.status)) [
  | inl opened ↦ inl (open_status slot.status opened)
  | inr other ↦ inr (
    held_status slot.status (ground (arith, h, other)),
    time_over now slot.hold_expires_at (ground (arith, h, other)),
  )
]

slot_found :
    (k : ℕ) (o : Option CompanionSlot) (slot : CompanionSlot)
    → slot_of k o ≡ some slot
    → (o ≡ some slot) × (slot.companion_id ≡ k)
unfolding slot_of
slot_found k none slot e = cc
slot_found k (some s) slot e = ground (arith, e)

-- A new booking, one that the user has not made before under its key, that commits is of another user's slot, which
-- was open or whose hold had run out, for an active service of that companion, who is active, in at least its least quantity. It
-- stores the booking as the request asks for it, at the service's price, awaiting payment under an order; and it
-- holds the slot for a quarter of an hour.
pub create_booking_was_free :
    (env : Env) (uid : ℕ) (r : BookingRequest) (db : Db)
    → earlier_booking uid r.idempotency_key db ≡ ok (none, db)
    → ((slot : CompanionSlot)
        → lookup r.slot_id db.companion.slots ≡ some slot
        → slot.id ≡ r.slot_id)
    → Yields
        (λ b db'.
          (slot : CompanionSlot) × (svc : CompanionService) × FreeBefore env.now uid r slot svc db
          × Holds env uid r slot svc b db')
        (create_booking env uid r db)
unfolding create_booking hit_or_book book_free_slot
create_booking_was_free env uid r db no_key keyed =
    let R : CompanionBooking → Db → Type 0 = λ b db'.
      (slot : CompanionSlot) × (svc : CompanionService) × FreeBefore env.now uid r slot svc db
      × Holds env uid r slot svc b db' in
    let profiles : Option CompanionProfile = lookup r.companion_id db.companion.profiles in
    let services : Option CompanionService = lookup r.service_id db.companion.services in
    let slots : Option CompanionSlot = lookup r.slot_id db.companion.slots in
    Yields-guard R (r.companion_id == uid) (app_error booking_invalid 400) _ db λ other.
      rw (no_key, ◌>>=◌)
        (Yields-or_raise R (bookable profiles) (app_error companion_unavailable 409) _ db
          λ profile ep.
            Yields-or_raise R (offered_by r.companion_id services)
              (app_error companion_not_found 404) _ db
              λ svc es.
                Yields-guard R (ltb r.units svc.min_units) (app_error booking_invalid 400) _ db
                  λ enough.
                    Yields-or_raise R (slot_of r.companion_id slots)
                      (app_error companion_not_found 404) _ db
                      λ slot el.
                        Yields-guard R (not (is_free env.now slot)) (app_error booking_conflict 409)
                          _ db
                          λ free.
                            let (known, working) = profile_found profiles profile ep in
                            let (offered, active, offers) =
                              offered_found r.companion_id services svc es in
                            let (at, own) = slot_found r.companion_id slots slot el in
                            let before : FreeBefore env.now uid r slot svc db = record {
                              at = at;
                              free = free_slots env.now slot (ground (arith, free));
                              own = own;
                              other = other;
                              offered = offered;
                              enough = ground (arith, enough);
                              active = active;
                              offers = offers;
                              profile = profile;
                              known = known;
                              working = working;
                            } in
                            Yields-map (Placed env uid r svc slot db) R
                              (place_booking env uid r svc slot db)
                              (λ b db' p. (
                                slot,
                                svc,
                                before,
                                Placed-Holds env uid r slot svc db b db' (keyed slot at) p,
                              ))
                              (place_booking-Placed env uid r svc slot db))
