-- ===== src/Events/Claims.antt =====
-- What a worker claims, and what it leaves.
use dating_backend.Prelude.{count, drop}
use dating_backend.Events.Rows.{AreDistinct, IsApart, IsKeyed, IsRow}
use dating_backend.Events.Saved.{taken, is_in, taken_row, lookup-save_claimed}
use dating_backend.Events.Rows.{rows-IsRow, rows-AreDistinct}
use dating_backend.Prelude.{
  ℕ, suc, zero, ◌≤◌, ◌≡◌, refl, Bool, true, List, [], ◌∷◌, leb, length, take, map, All, All-take,
  arith, Bool-cases, inl, inr, length-take, ap, ◌&&◌, ◌++◌, ◌∙◌, ◌==◌, if◌then◌else◌, false, ◌+◌,
}
use dating_backend.Shared.Action.{ok}
use dating_backend.Shared.Table.{Table, rows, lookup}
use dating_backend.Events.{
  DomainEvent, Outbox, is_claimable, claimed, claim_batch, sort_by_time, insert_by_time, save_all,
  DomainEventStatus, not, is_pending, min,
}
use dating_backend.Events.Attempts.{All-sort_by_time, All-insert_by_time}

-- Each event is due no later than those after it.
abbrev pub IsInOrder : List DomainEvent → Type 0
IsInOrder [] = Unit
IsInOrder (e ∷ es) = All (λ d. e.available_at ≤ d.available_at) es × IsInOrder es

-- An event that a worker may claim: it is pending and due, and no other worker holds it.
unfoldable pub is_waiting : DomainEventStatus → Bool
is_waiting DomainEventStatus.pending = true
is_waiting _ = false

abbrev pub may_claim : ℕ → (ℕ → Bool) → DomainEvent → Bool
may_claim now locked e = is_waiting e.status && (leb e.available_at now && not (locked e.id))

later-All :
    (a b : ℕ) (es : List DomainEvent)
    → a ≤ b
    → All (λ d. b ≤ d.available_at) es
    → All (λ d. a ≤ d.available_at) es
later-All a b [] le h = tt
later-All a b (e ∷ es) le (he, h) = (omega arith, later-All a b es le h)

after_insert :
    (a : ℕ) (e : DomainEvent) (es : List DomainEvent)
    → a ≤ e.available_at
    → All (λ d. a ≤ d.available_at) es
    → All (λ d. a ≤ d.available_at) (insert_by_time e es)
unfolding insert_by_time
after_insert a e [] le h = (le, tt)
after_insert a e (d ∷ ds) le (hd, h) = elim (Bool-cases (leb e.available_at d.available_at)) [
  | inl before ↦ rw before (le, (hd, h))
  | inr after ↦ rw after (hd, after_insert a e ds le h)
]

insert_by_time-IsInOrder :
    (e : DomainEvent) (es : List DomainEvent) → IsInOrder es → IsInOrder (insert_by_time e es)
unfolding insert_by_time
insert_by_time-IsInOrder e [] h = (tt, tt)
insert_by_time-IsInOrder e (d ∷ ds) (hd, h) =
    elim (Bool-cases (leb e.available_at d.available_at)) [
      | inl before ↦
          rw before
            ((ground arith, later-All e.available_at d.available_at ds (ground arith) hd), (hd, h))
      | inr after ↦
          rw after
            (after_insert d.available_at e ds (ground arith) hd, insert_by_time-IsInOrder e ds h)
    ]

sort_by_time-IsInOrder : (es : List DomainEvent) → IsInOrder (sort_by_time es)
unfolding sort_by_time
sort_by_time-IsInOrder [] = tt
sort_by_time-IsInOrder (e ∷ es) =
    insert_by_time-IsInOrder e (sort_by_time es) (sort_by_time-IsInOrder es)

module _ (test : DomainEvent → Bool) where
  count-insert_by_time :
      (e : DomainEvent) (es : List DomainEvent)
      → count test (insert_by_time e es) ≡ count test (e ∷ es)
  unfolding insert_by_time
  count-insert_by_time e [] = refl
  count-insert_by_time e (d ∷ ds) = ground (arith, count-insert_by_time e ds)

  count-sort_by_time : (es : List DomainEvent) → count test (sort_by_time es) ≡ count test es
  unfolding sort_by_time
  count-sort_by_time [] = refl
  count-sort_by_time (e ∷ es) =
      count-insert_by_time e (sort_by_time es)
      ∙ ap (λ n. (if test e then 1 else 0) + n) (count-sort_by_time es)

length-insert_by_time :
    (e : DomainEvent) (es : List DomainEvent) → length (insert_by_time e es) ≡ suc (length es)
unfolding insert_by_time
length-insert_by_time e [] = refl
length-insert_by_time e (d ∷ ds) = ground (arith, length-insert_by_time e ds)

length-sort_by_time : (es : List DomainEvent) → length (sort_by_time es) ≡ length es
unfolding sort_by_time
length-sort_by_time [] = refl
length-sort_by_time (e ∷ es) =
    length-insert_by_time e (sort_by_time es) ∙ ap suc (length-sort_by_time es)

insert_by_time-AreDistinct :
    (e : DomainEvent) (es : List DomainEvent)
    → IsApart e.id es
    → AreDistinct es
    → AreDistinct (insert_by_time e es)
unfolding insert_by_time
insert_by_time-AreDistinct e [] far h = (tt, tt)
insert_by_time-AreDistinct e (d ∷ ds) (fd, far) (hd, h) =
    elim (Bool-cases (leb e.available_at d.available_at)) [
      | inl before ↦ rw before ((fd, far), (hd, h))
      | inr after ↦ rw after (
        All-insert_by_time (λ c. (c.id == d.id) ≡ false) e ds (ground (arith, fd)) hd,
        insert_by_time-AreDistinct e ds far h,
      )
    ]

sort_by_time-AreDistinct : (es : List DomainEvent) → AreDistinct es → AreDistinct (sort_by_time es)
unfolding sort_by_time
sort_by_time-AreDistinct [] h = tt
sort_by_time-AreDistinct (e ∷ es) (he, h) =
    insert_by_time-AreDistinct e (sort_by_time es)
      (All-sort_by_time (λ c. (c.id == e.id) ≡ false) es he) (sort_by_time-AreDistinct es h)

take-AreDistinct : (n : ℕ) (es : List DomainEvent) → AreDistinct es → AreDistinct (take n es)
take-AreDistinct zero es h = tt
take-AreDistinct (suc n) [] h = tt
take-AreDistinct (suc n) (e ∷ es) (he, h) =
    (All-take (λ c. (c.id == e.id) ≡ false) n es he, take-AreDistinct n es h)

take-drop : (n : ℕ) (es : List DomainEvent) → take n es ++ drop n es ≡ es
take-drop zero es = refl
take-drop (suc n) [] = refl
take-drop (suc n) (e ∷ es) = ap (λ ds. e ∷ ds) (take-drop n es)

waiting_pending : (s : DomainEventStatus) → is_pending s ≡ is_waiting s
unfolding is_waiting
waiting_pending DomainEventStatus.pending = refl
waiting_pending DomainEventStatus.processing = refl
waiting_pending DomainEventStatus.done = refl
waiting_pending DomainEventStatus.failed = refl

claimable_may :
    (now : ℕ) (locked : ℕ → Bool) (e : DomainEvent)
    → is_claimable now locked e ≡ may_claim now locked e
unfolding is_claimable
claimable_may now locked e = ground (arith, waiting_pending e.status)

-- The rows that `claim_batch` asks for are those that a worker may claim.
claimable_rows :
    (now : ℕ) (locked : ℕ → Bool) (t : Table DomainEvent)
    → rows (is_claimable now locked) t ≡ rows (may_claim now locked) t
claimable_rows now locked t = ap (λ p. rows p t) (λ i e. claimable_may now locked e i)

rows_pass : (p : DomainEvent → Bool) (t : Table DomainEvent) → All (λ e. p e ≡ true) (rows p t)
unfolding rows
rows_pass p [] = tt
rows_pass p ((j, e) ∷ t) = elim (Bool-cases (p e)) [
  | inl passes ↦ rw passes (passes, rows_pass p t)
  | inr fails ↦ rw fails (rows_pass p t)
]

-- The events of a keyed outbox that a claim takes: rows of the outbox, no two of one id.
pub due_rows :
    (now : ℕ) (locked : ℕ → Bool) (batch : ℕ) (t : Table DomainEvent)
    → IsKeyed t
    → All (IsRow t) (take batch (sort_by_time (rows (is_claimable now locked) t)))
      × AreDistinct (take batch (sort_by_time (rows (is_claimable now locked) t)))
due_rows now locked batch t keyed =
    let found : List DomainEvent = rows (is_claimable now locked) t in
    (
      All-take (IsRow t) batch (sort_by_time found)
          (All-sort_by_time (IsRow t) found (rows-IsRow (is_claimable now locked) t keyed)),
      take-AreDistinct batch (sort_by_time found)
          (sort_by_time-AreDistinct found (rows-AreDistinct (is_claimable now locked) t keyed)),
    )

-- Where events are kept under their own ids, a claim succeeds. It returns as many events as it was asked for, or
-- all that a worker may claim, where those are fewer: pending, due, and held by no other worker. They are rows of
-- the outbox, returned as being processed and tried once more. Together with those left over they are in the
-- order in which they fell due, and for every test as many of them pass it as of the events that may be
-- claimed. The returned events are written back, and every other row is as it was.
pub claim_batch_claims :
    (now : ℕ) (locked : ℕ → Bool) (batch : ℕ) (o : Outbox) (k : ℕ) (test : DomainEvent → Bool)
    → IsKeyed o.events
    → (due : List DomainEvent) × (left : List DomainEvent) × (o' : Outbox) × (claim_batch now locked
          batch o
        ≡ ok (map taken due, o'))
      × (length due ≡ min batch (length (rows (may_claim now locked) o.events)))
      × All (IsRow o.events) due
      × All (λ e. may_claim now locked e ≡ true) due
      × IsInOrder (due ++ left)
      × (count test (due ++ left) ≡ count test (rows (may_claim now locked) o.events))
      × (lookup k o'.events
          ≡ (if is_in k due then taken_row (lookup k o.events) else lookup k o.events))
unfolding claim_batch
claim_batch_claims now locked batch o k test keyed =
    let found : List DomainEvent = rows (is_claimable now locked) o.events in
    let due : List DomainEvent = take batch (sort_by_time found) in
    let left : List DomainEvent = drop batch (sort_by_time found) in
    let all : due ++ left ≡ sort_by_time found = take-drop batch (sort_by_time found) in
    let same : found ≡ rows (may_claim now locked) o.events = claimable_rows now locked o.events in
    let (row, apart) = due_rows now locked batch o.events keyed in
    (
      due,
      left,
      record o { events = save_all (map claimed due) o.events },
      refl,
      length-take batch (sort_by_time found)
          ∙ ap (min batch)
              (length-sort_by_time found ∙ ap (λ (es : List DomainEvent). length es) same),
      row,
      All-take (λ e. may_claim now locked e ≡ true) batch (sort_by_time found)
          (All-sort_by_time (λ e. may_claim now locked e ≡ true) found
            (rw same (rows_pass (may_claim now locked) o.events))),
      rw all (sort_by_time-IsInOrder found),
      ap (count test) all ∙ count-sort_by_time test found ∙ ap (count test) same,
      lookup-save_claimed k due o.events row apart,
    )
