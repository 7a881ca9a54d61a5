-- ===== src/Companion/PaidFor.antt =====
-- No booking is started or completed unpaid.
use dating_backend.Companion.Steps.{
  Step, Terms, confirmed, declined_first, declined_unpaid, declined_paid, begun, finished,
  withdrawn, rescheduled,
}
use dating_backend.Companion.Ordering.{Placed, place_booking-Placed}
use dating_backend.Prelude.{
  ℕ, ◌≡◌, refl, String, Bool, true, false, Option, none, some, List, [], ◌∷◌, arith, Bool-cases,
  inl, inr, is_some, ◌∙◌, ap,
}
use dating_backend.Shared.Action.{committed, modify}
use dating_backend.Shared.Action.Keeps.{
  Yields, Keeps, Yields-map, committed_of_commits, keeps_rules,
}
use dating_backend.Shared.Table.{lookup, insert, Every, Every-insert, Every-lookup, one_or_none}
use dating_backend.Events.{enqueue}
use dating_backend.Commerce.Data.{Db, Env, on_companion, publish, fresh_id}
use dating_backend.Commerce.Settlement.{mark_booking_paid, mark_found}
use dating_backend.Companion.Data.{
  Bookings, CompanionBooking, BookingStatus, awaits_payment, paid_booking, settle_booking,
  book_slot, count_order, save_booking, save_slot, count_found, book_found, CompanionSlot,
  CompanionProfile, CompanionService,
}
use dating_backend.Companion.Booking.{
  BookingAction, transition, create_booking, earlier_booking, hit_or_book, create_slot,
  BookingRequest, new_booking, ordered_booking, book_free_slot, place_booking,
}
use dating_backend.Companion.Lifecycle.{transition_steps}

-- The statuses that a booking reaches by being paid.
unfoldable pub needs_payment : BookingStatus → Bool
needs_payment BookingStatus.paid = true
needs_payment BookingStatus.in_progress = true
needs_payment BookingStatus.completed = true
needs_payment _ = false

abbrev pub IsPaidFor : CompanionBooking → Type 0
IsPaidFor b = needs_payment b.status ≡ true → is_some b.paid_at ≡ true

abbrev pub AllPaidFor : Db → Type 0
AllPaidFor db = Every IsPaidFor db.companion.bookings

step_needs :
    (action : BookingAction) (s s' : BookingStatus)
    → Step action s s'
    → needs_payment s' ≡ true
    → needs_payment s ≡ true
unfolding needs_payment
step_needs _ _ _ confirmed h = refl
step_needs _ _ _ declined_first h = cc
step_needs _ _ _ declined_unpaid h = cc
step_needs _ _ _ declined_paid h = refl
step_needs _ _ _ begun h = refl
step_needs _ _ _ finished h = refl
step_needs _ _ _ (withdrawn s live) h = cc
step_needs _ _ _ (rescheduled t s) h = h

transition-Keeps :
    (env : Env) (uid id : ℕ) (action : BookingAction) (reason : Option String)
    → Keeps AllPaidFor (transition env uid id action reason)
transition-Keeps env uid id action reason = record {
  at = λ db h.
      Yields-map _ (λ _. AllPaidFor) (transition env uid id action reason db)
        (λ b' db' (b, at, party, m).
          let was : IsPaidFor b = Every-lookup IsPaidFor id b db.companion.bookings h at in
          rw m.written (
            Every-insert IsPaidFor b.id b' db.companion.bookings
              (λ n. ground (
                arith,
                ap (λ (t : Terms). t.paid_at) m.same,
                was (step_needs action b.status b'.status m.step n),
              ))
              h))
        (transition_steps env uid id action reason db);
}

count_found-bookings :
    (k : ℕ) (o : Option CompanionProfile) (t : Bookings) → (count_found k o t).bookings ≡ t.bookings
unfolding count_found
count_found-bookings k none t = refl
count_found-bookings k (some p) t = refl

book_found-bookings :
    (o : Option CompanionSlot) (t : Bookings) → (book_found o t).bookings ≡ t.bookings
unfolding book_found save_slot
book_found-bookings none t = refl
book_found-bookings (some slot) t = refl

book_slot-bookings : (o : Option ℕ) (t : Bookings) → (book_slot o t).bookings ≡ t.bookings
unfolding book_slot
book_slot-bookings none t = refl
book_slot-bookings (some i) t = book_found-bookings (lookup i t.slots) t

-- The bookings after `mark_booking_paid`.
settled-bookings :
    (now : ℕ) (b : CompanionBooking) (t : Bookings)
    → (settle_booking now b t).bookings ≡ insert b.id (paid_booking now b) t.bookings
unfolding settle_booking count_order save_booking
settled-bookings now b t =
    let t1 : Bookings = book_slot b.slot_id (save_booking (paid_booking now b) t) in
    count_found-bookings b.companion_id (lookup b.companion_id t1.profiles) t1
    ∙ book_slot-bookings b.slot_id (save_booking (paid_booking now b) t)

pay_found-Yields :
    (env : Env) (id : ℕ) (found : Option CompanionBooking) (db : Db)
    → AllPaidFor db
    → Yields (λ _. AllPaidFor) (mark_found env id found db)
unfolding mark_found on_companion publish enqueue
pay_found-Yields env id none db h = h
pay_found-Yields env id (some b) db h = elim (Bool-cases (awaits_payment b.status)) [
  | inr settled ↦ rw settled h
  | inl awaits ↦ rw awaits (
      rw (settled-bookings env.now b db.companion) (
        Every-insert IsPaidFor b.id (paid_booking env.now b) db.companion.bookings
          (λ n. unfold paid_booking in refl) h))
]

mark_booking_paid-Keeps : (env : Env) (id : ℕ) → Keeps AllPaidFor (mark_booking_paid env id)
unfolding mark_booking_paid
mark_booking_paid-Keeps env id = record {
  at = λ db h. pay_found-Yields env id (lookup id db.companion.bookings) db h;
}

unpaid_status : (b : CompanionBooking) → needs_payment b.status ≡ false → IsPaidFor b
unpaid_status b unpaid h = cc

place_booking-Keeps :
    (env : Env) (uid : ℕ) (r : BookingRequest) (svc : CompanionService) (slot : CompanionSlot)
    → Keeps AllPaidFor (place_booking env uid r svc slot)
unfolding new_booking ordered_booking save_booking save_slot needs_payment
place_booking-Keeps env uid r svc slot = record {
  at = λ db h.
      Yields-map (Placed env uid r svc slot db) (λ _. AllPaidFor)
        (place_booking env uid r svc slot db)
        (λ b db' p.
          let b0 : CompanionBooking = new_booking env db.next_id uid r svc slot in
          let unpaid : needs_payment b.status ≡ false = rw p.booking refl in
          rw p.tables (
            Every-insert IsPaidFor b.id b (insert b0.id b0 db.companion.bookings)
              (unpaid_status b unpaid)
              (Every-insert IsPaidFor b0.id b0 db.companion.bookings (unpaid_status b0 refl) h)))
        (place_booking-Placed env uid r svc slot db);
}

one_or_none-paid : {A : Type 0} (l : List A) → Keeps AllPaidFor (one_or_none l)
one_or_none-paid [] = record { at = λ db h. h }
one_or_none-paid (a ∷ []) = record { at = λ db h. h }
one_or_none-paid (a ∷ b ∷ l) = record { at = λ db h. tt }

earlier_booking-Keeps : (uid : ℕ) (key : Option String) → Keeps AllPaidFor (earlier_booking uid key)
unfolding earlier_booking
earlier_booking-Keeps uid none = search keeps_rules
earlier_booking-Keeps uid (some key) = search (keeps_rules, one_or_none-paid) depth 8

hit_or_book-Keeps :
    (env : Env) (uid : ℕ) (r : BookingRequest) (hit : Option CompanionBooking)
    → Keeps AllPaidFor (hit_or_book env uid r hit)
unfolding hit_or_book book_free_slot
hit_or_book-Keeps env uid r none = search (keeps_rules, place_booking-Keeps) depth 16
hit_or_book-Keeps env uid r (some booking) = search keeps_rules

create_booking-Keeps :
    (env : Env) (uid : ℕ) (r : BookingRequest) → Keeps AllPaidFor (create_booking env uid r)
unfolding create_booking
create_booking-Keeps env uid r =
    search (keeps_rules, earlier_booking-Keeps, hit_or_book-Keeps) depth 8

add_slot-Keeps : (slot : CompanionSlot) → Keeps AllPaidFor (on_companion (modify (save_slot slot)))
unfolding on_companion save_slot
add_slot-Keeps slot = record { at = λ db h. h }

fresh_id-paid : Keeps AllPaidFor fresh_id
unfolding fresh_id
fresh_id-paid = record { at = λ db h. h }

create_slot-Keeps : (uid start_at end_at : ℕ) → Keeps AllPaidFor (create_slot uid start_at end_at)
unfolding create_slot
create_slot-Keeps uid start_at end_at = search (keeps_rules, fresh_id-paid, add_slot-Keeps) depth 12

-- What happens to bookings: companions offer slots, buyers book them, the parties move the bookings, and the
-- commerce service marks them paid.
pub data BookingStep : Type 0 where
  offer : ℕ → ℕ → ℕ → BookingStep
  book : ℕ → BookingRequest → BookingStep
  move : ℕ → ℕ → BookingAction → Option String → BookingStep
  mark_paid : ℕ → BookingStep

unfoldable pub serve_booking : Env → BookingStep → Db → Db
serve_booking env (offer uid start_at end_at) db = committed (create_slot uid start_at end_at db) db
serve_booking env (book uid r) db = committed (create_booking env uid r db) db
serve_booking env (move uid id action reason) db =
    committed (transition env uid id action reason db) db
serve_booking env (mark_paid id) db = committed (mark_booking_paid env id db) db

unfoldable pub serve_bookings : List (Env × BookingStep) → Db → Db
unfolding serve_booking
serve_bookings [] db = db
serve_bookings ((env, r) ∷ rs) db = serve_bookings rs (serve_booking env r db)

serve_booking-AllPaidFor :
    (env : Env) (r : BookingStep) (db : Db) → AllPaidFor db → AllPaidFor (serve_booking env r db)
unfolding serve_booking
serve_booking-AllPaidFor env (offer uid start_at end_at) db h =
    committed_of_commits AllPaidFor (create_slot uid start_at end_at db) db
      ((create_slot-Keeps uid start_at end_at).at db h) h
serve_booking-AllPaidFor env (book uid r) db h =
    committed_of_commits AllPaidFor (create_booking env uid r db) db
      ((create_booking-Keeps env uid r).at db h) h
serve_booking-AllPaidFor env (move uid id action reason) db h =
    committed_of_commits AllPaidFor (transition env uid id action reason db) db
      ((transition-Keeps env uid id action reason).at db h) h
serve_booking-AllPaidFor env (mark_paid id) db h =
    committed_of_commits AllPaidFor (mark_booking_paid env id db) db
      ((mark_booking_paid-Keeps env id).at db h) h

-- Whatever slots companions offer, whatever buyers book, however the parties move the bookings, and whichever
-- bookings are marked paid, no booking is paid,
-- started or completed without a time at which it was paid, if that held before.
pub serve_bookings-AllPaidFor :
    (rs : List (Env × BookingStep)) (db : Db) → AllPaidFor db → AllPaidFor (serve_bookings rs db)
unfolding serve_bookings
serve_bookings-AllPaidFor [] db h = h
serve_bookings-AllPaidFor ((env, r) ∷ rs) db h =
    serve_bookings-AllPaidFor rs (serve_booking env r db) (serve_booking-AllPaidFor env r db h)
