-- ===== src/Events/Counted.antt =====
-- The claims of an event, counted over what happens to the outbox, are the attempts that its row keeps.
use dating_backend.Events.Accounted.{
  tries, attempts_of, IsAccounted, committed_of_returns, drain_all-IsAccounted, agreed,
}
use dating_backend.Prelude.{
  ℕ, suc, ◌≤◌, ◌≡◌, refl, sym, Bool, true, false, Option, none, some, List, [], ◌∷◌, map, All, take,
  arith, Bool-cases, Option-cases, inl, inr, ◌==◌, ap, if◌then◌else◌, ◌∙◌, ◌+◌, String,
}
use dating_backend.Shared.Action.{Result, ok, err, committed}
use dating_backend.Shared.Table.{
  Table, lookup, insert, rows, lookup-insert, lookup-insert_at, Every-lookup,
}
use dating_backend.Events.{
  DomainEvent, Outbox, claimed, save_all, sort_by_time, is_claimable, claim_batch, drain_all,
  drain_domain_events, enqueue, DomainEventName,
}
use dating_backend.Events.Rows.{
  IsKeyed, IsBelow, IsRow, insert-IsKeyed, insert-IsBelow, later-IsBelow, IsBelow-lookup,
  lookup-IsBelow,
}
use dating_backend.Events.Saved.{
  is_in, taken_row, save_all-IsKeyed, save_all-IsBelow, save_all-IsRow, AreDistinct-claimed,
  lookup-save_claimed,
}
use dating_backend.Events.Claims.{due_rows}
use dating_backend.Events.Attempts.{
  IsBounded, AllBounded, OutboxStep, add, drain, outbox_step, outbox_steps, outbox_steps-AllBounded,
}

unfoldable pub batch_of : Result (List DomainEvent × Outbox) → List DomainEvent
batch_of (ok (es, _)) = es
batch_of (err _) = []

-- How often a step claims the event of an id.
unfoldable pub claims_in : ℕ → OutboxStep → Outbox → ℕ
claims_in k (add _ _ _ _ _) o = 0
claims_in k (drain now locked batch dispatch) o =
    if is_in k (batch_of (claim_batch now locked batch o)) then 1 else 0

-- How often the steps claim it.
unfoldable pub claims : ℕ → List OutboxStep → Outbox → ℕ
claims k [] o = 0
claims k (s ∷ ss) o = claims_in k s o + claims k ss (outbox_step s o)

low_ids :
    (n : ℕ) (t : Table DomainEvent) (es : List DomainEvent)
    → All (IsRow t) es
    → IsBelow n t
    → All (λ e. suc e.id ≤ n) (map claimed es)
low_ids n t [] row below = tt
low_ids n t (e ∷ es) (re, row) below =
    (lookup-IsBelow n e.id e t re below, low_ids n t es row below)

claimed_in : (k : ℕ) (es : List DomainEvent) → is_in k (map claimed es) ≡ is_in k es
claimed_in k [] = refl
claimed_in k (e ∷ es) = ground (arith, claimed_in k es)

-- The row of an id in the list of claimed rows is there.
in_found :
    (k : ℕ) (t : Table DomainEvent) (es : List DomainEvent)
    → All (IsRow t) es
    → is_in k es ≡ true
    → attempts_of (taken_row (lookup k t)) ≡ 1 + tries k t
unfolding attempts_of taken_row
in_found k t [] row found = cc
in_found k t (e ∷ es) (re, row) found = elim (Bool-cases (e.id == k)) [
  | inl same ↦
      let same_id : e.id ≡ k = ground (arith, same) in
      let at : lookup k t ≡ some e = ground (arith, re, ap (λ j. lookup j t) same_id) in
      rw at (omega arith)
  | inr other ↦ in_found k t es row (ground (arith, found, other))
]

batch_counted :
    (k : ℕ) (t : Table DomainEvent) (es : List DomainEvent)
    → All (IsRow t) es
    → attempts_of (if is_in k es then taken_row (lookup k t) else lookup k t)
      ≡ (if is_in k (map claimed es) then 1 else 0) + tries k t
batch_counted k t es row = elim (Bool-cases (is_in k es)) [
  | inl found ↦ rw (claimed_in k es, found) (in_found k t es row found)
  | inr missing ↦ rw (claimed_in k es, missing) (omega arith)
]

-- Events are kept under their own ids, and the next id is above them all.
abbrev pub IsNumbered : Outbox → Type 0
IsNumbered o = IsKeyed o.events × IsBelow o.next_id o.events

abbrev IsCounted : ℕ → OutboxStep → Outbox → Type 0
IsCounted k s o =
    (tries k (outbox_step s o).events ≡ claims_in k s o + tries k o.events)
    × IsNumbered (outbox_step s o)

other_row :
    (k j : ℕ) (e : DomainEvent) (t : Table DomainEvent)
    → (k == j) ≡ false
    → lookup j (insert k e t) ≡ lookup j t
other_row k j e t h = ground (arith, lookup-insert k j e t, h)

no_claim : (a b : ℕ) → a ≡ b → a ≡ 0 + b
no_claim a b e = omega (arith, e)

module _ (k : ℕ) (o : Outbox) where
  add-IsCounted :
      (now : ℕ) (name : DomainEventName) (kind : String) (id : ℕ) (at : Option ℕ)
      → IsNumbered o
      → IsCounted k (add now name kind id at) o
  unfolding outbox_step enqueue committed claims_in attempts_of
  add-IsCounted now name kind id at (keyed, below) = (
    elim (Bool-cases (o.next_id == k)) [
      | inl new ↦
          let same : o.next_id ≡ k = ground (arith, new) in
          let before : lookup k o.events ≡ none =
            IsBelow-lookup o.next_id k o.events (omega (arith, same)) below in
          no_claim _ _ (
            ap attempts_of (lookup-insert_at o.next_id k _ o.events same)
            ∙ sym (ap attempts_of before))
      | inr other ↦ no_claim _ _ (ap attempts_of (other_row o.next_id k _ o.events other))
    ],
    (
      insert-IsKeyed o.next_id _ o.events refl keyed,
      insert-IsBelow (o.next_id + 1) o.next_id _ o.events (omega arith)
          (later-IsBelow o.next_id (o.next_id + 1) o.events (omega arith) below),
    ),
  )

  drain-IsCounted :
      (now : ℕ) (locked : ℕ → Bool) (batch : ℕ) (dispatch : DomainEvent → Option String)
      → IsNumbered o
      → IsCounted k (drain now locked batch dispatch) o
  unfolding outbox_step drain_domain_events claim_batch claims_in batch_of
  drain-IsCounted now locked batch dispatch (keyed, below) =
      let due : List DomainEvent =
        take batch (sort_by_time (rows (is_claimable now locked) o.events)) in
      let t1 : Table DomainEvent = save_all (map claimed due) o.events in
      let o1 : Outbox = record o { events = t1 } in
      let (row, apart) = due_rows now locked batch o.events keyed in
      let below1 : IsBelow o.next_id t1 =
        save_all-IsBelow o.next_id (map claimed due) o.events
          (low_ids o.next_id o.events due row below) below in
      let row1 : All (IsRow t1) (map claimed due) =
        save_all-IsRow (map claimed due) o.events (AreDistinct-claimed due apart) in
      let start : IsAccounted (λ j. tries j t1) o.next_id o1 = record {
        counts = λ j. refl;
        keyed = save_all-IsKeyed (map claimed due) o.events keyed;
        below = below1;
        next = refl;
      } in
      let after : IsAccounted (λ j. tries j t1) o.next_id
          (outbox_step (drain now locked batch dispatch) o) =
        committed_of_returns (IsAccounted (λ j. tries j t1) o.next_id)
          (drain_all now dispatch (map claimed due) o1) o
          (drain_all-IsAccounted (λ j. tries j t1) o.next_id now dispatch (map claimed due) o1
            (agreed o.next_id t1 (map claimed due) row1 below1) start) in
      (
        after.counts k
            ∙ ap attempts_of (lookup-save_claimed k due o.events row apart)
            ∙ batch_counted k o.events due row,
        (after.keyed, rw after.next after.below),
      )

step-IsCounted : (k : ℕ) (s : OutboxStep) (o : Outbox) → IsNumbered o → IsCounted k s o
step-IsCounted k (add now name kind id at) o h = add-IsCounted k o now name kind id at h
step-IsCounted k (drain now locked batch dispatch) o h =
    drain-IsCounted k o now locked batch dispatch h

-- The attempts that a row keeps grow by one with each claim.
steps_counted :
    (k : ℕ) (ss : List OutboxStep) (o : Outbox)
    → IsNumbered o
    → tries k (outbox_steps ss o).events ≡ claims k ss o + tries k o.events
unfolding outbox_steps claims
steps_counted k [] o h = omega arith
steps_counted k (s ∷ ss) o h =
    let (grown, numbered) = step-IsCounted k s o h in
    omega (arith, grown, steps_counted k ss (outbox_step s o) numbered)

tries_bounded : (k : ℕ) (o : Outbox) → AllBounded o → tries k o.events ≤ 8
unfolding attempts_of
tries_bounded k o h = elim (Option-cases (lookup k o.events)) [
  | inl missing ↦ rw missing (omega arith)
  | inr (e, found) ↦ rw found (Every-lookup IsBounded k e o.events h found).tried
]

-- Whatever events are added, and whatever workers drain and however the handlers fail, the attempts that the row
-- of an event keeps count how often it was claimed, and with the attempts that it had before these are at most
-- eight; and an event that waits to be claimed was tried at most seven times. Before, events are kept under their
-- own ids, below the next one, and were tried no more often than that.
pub claimed_at_most_eight :
    (k : ℕ) (ss : List OutboxStep) (o : Outbox)
    → AllBounded o
    → IsNumbered o
    → (tries k (outbox_steps ss o).events ≡ claims k ss o + tries k o.events)
      × ((claims k ss o + tries k o.events) ≤ 8)
      × AllBounded (outbox_steps ss o)
claimed_at_most_eight k ss o bounded numbered =
    let after = outbox_steps-AllBounded ss o bounded in
    let counted = steps_counted k ss o numbered in
    (counted, omega (arith, counted, tries_bounded k (outbox_steps ss o) after), after)
