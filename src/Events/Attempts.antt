-- ===== src/Events/Attempts.antt =====
-- The attempts that events keep, and the waiting times between them.
use dating_backend.Prelude.{
  ℕ, suc, zero, ◌-◌, ◌^◌, ◌≤◌, ◌≡◌, Bool, true, Option, List, [], ◌∷◌, ◌&&◌, ltb, String, take, map,
  All, All-take, arith, Bool-cases, inl, inr, Option-cases, leb,
}
use dating_backend.Shared.Action.{committed}
use dating_backend.Shared.Action.Keeps.{
  Yields, Keeps, keeps_rules, Yields-bind, committed_of_commits,
}
use dating_backend.Shared.Table.{Table, insert, rows, Every, Every-insert, All-rows}
use dating_backend.Events.{
  DomainEvent, DomainEventName, Outbox, is_pending, is_claimable, claimed, save_all, sort_by_time,
  insert_by_time, claim_batch, finished, failed_event, backoff, max_attempts, mark_done,
  mark_failed, drain_one, drain_all, drain_domain_events, enqueue, leb,
}

pow_pos : (n : ℕ) → 1 ≤ 2 ^ n
pow_pos zero = omega arith
pow_pos (suc n) = omega (arith, pow_pos n)

-- The wait before another try is at least 15 seconds and at most an hour.
pub backoff_bounds : (attempts : ℕ) → (15 ≤ backoff attempts) × (backoff attempts ≤ 3600)
unfolding backoff
backoff_bounds attempts = let p = pow_pos (attempts - 1) in (omega (arith, p), omega arith)

-- An event keeps at most `max_attempts` attempts, and waits to be claimed only if fewer.
pub record IsBounded (e : DomainEvent) : Type 0 where
  pub tried : e.attempts ≤ max_attempts
  pub retried : is_pending e.status ≡ true → suc e.attempts ≤ max_attempts

abbrev pub AllBounded : Outbox → Type 0
AllBounded o = Every IsBounded o.events

claimed-IsBounded :
    (now : ℕ) (locked : ℕ → Bool) (e : DomainEvent)
    → IsBounded e × (is_claimable now locked e ≡ true)
    → IsBounded (claimed e)
unfolding is_claimable
claimed-IsBounded now locked e (h, due) = record {
  tried = ground (arith, h.retried (ground (arith, due)));
  retried = λ p. ground (arith, p);
}

failed_event-IsBounded :
    (now : ℕ) (error : String) (retry : Bool) (e : DomainEvent)
    → IsBounded e
    → IsBounded (failed_event now error retry e)
unfolding failed_event
failed_event-IsBounded now error retry e h =
    elim (Bool-cases (retry && ltb e.attempts max_attempts)) [
      | inl again ↦ rw again (record { tried = h.tried; retried = λ _. ground (arith, again) })
      | inr over ↦ rw over (record { tried = h.tried; retried = λ p. ground (arith, p) })
    ]

module _ (P : DomainEvent → Type 0) where
  pub All-insert_by_time :
      (e : DomainEvent) (es : List DomainEvent) → P e → All P es → All P (insert_by_time e es)
  unfolding insert_by_time
  All-insert_by_time e [] pe h = (pe, tt)
  All-insert_by_time e (d ∷ ds) pe (pd, h) = elim (Bool-cases (leb e.available_at d.available_at)) [
    | inl before ↦ rw before (pe, (pd, h))
    | inr after ↦ rw after (pd, All-insert_by_time e ds pe h)
  ]

  pub All-sort_by_time : (es : List DomainEvent) → All P es → All P (sort_by_time es)
  unfolding sort_by_time
  All-sort_by_time [] h = tt
  All-sort_by_time (e ∷ es) (pe, h) =
      All-insert_by_time e (sort_by_time es) pe (All-sort_by_time es h)

  Every-save_all :
      (es : List DomainEvent) (t : Table DomainEvent)
      → All P es
      → Every P t
      → Every P (save_all es t)
  unfolding save_all
  Every-save_all [] t h q = q
  Every-save_all (e ∷ es) t (pe, h) q =
      Every-save_all es (insert e.id e t) h (Every-insert P e.id e t pe q)

All-claimed :
    (now : ℕ) (locked : ℕ → Bool) (es : List DomainEvent)
    → All (λ e. IsBounded e × (is_claimable now locked e ≡ true)) es
    → All IsBounded (map claimed es)
All-claimed now locked [] h = tt
All-claimed now locked (e ∷ es) (he, h) =
    (claimed-IsBounded now locked e he, All-claimed now locked es h)

-- What was claimed, and the rows, stay bounded.
claim_batch-Yields :
    (now : ℕ) (locked : ℕ → Bool) (batch : ℕ) (o : Outbox)
    → AllBounded o
    → Yields (λ es o'. All IsBounded es × AllBounded o') (claim_batch now locked batch o)
unfolding claim_batch
claim_batch-Yields now locked batch o h =
    let due : List DomainEvent =
      take batch (sort_by_time (rows (is_claimable now locked) o.events)) in
    let es = All-claimed now locked due (
      All-take (λ e. IsBounded e × (is_claimable now locked e ≡ true)) batch
        (sort_by_time (rows (is_claimable now locked) o.events))
        (All-sort_by_time (λ e. IsBounded e × (is_claimable now locked e ≡ true))
          (rows (is_claimable now locked) o.events)
          (All-rows IsBounded (is_claimable now locked) o.events h))) in
    (es, Every-save_all IsBounded (map claimed due) o.events es h)

module _ (now : ℕ) (dispatch : DomainEvent → Option String) where
  drain_one-Keeps : (e : DomainEvent) → IsBounded e → Keeps AllBounded (drain_one now dispatch e)
  unfolding drain_one mark_done mark_failed finished
  drain_one-Keeps e he = record {
    at = λ o h. elim (Option-cases (dispatch e)) [
      | inl done ↦
          rw (done, Yields)
            (Every-insert IsBounded e.id (finished now e) o.events
              (record { tried = he.tried; retried = λ p. ground (arith, p) }) h)
      | inr (error, failed) ↦
          rw (failed, Yields)
            (Every-insert IsBounded (failed_event now error true e).id
              (failed_event now error true e) o.events (failed_event-IsBounded now error true e he)
              h)
    ];
  }

  drain_all-Keeps :
      (es : List DomainEvent) → All IsBounded es → Keeps AllBounded (drain_all now dispatch es)
  unfolding drain_all
  drain_all-Keeps [] h = search keeps_rules
  drain_all-Keeps (e ∷ es) (he, h) =
      search (keeps_rules, drain_one-Keeps e he, drain_all-Keeps es h)

-- What happens to the outbox: handlers add events, and workers drain them.
pub data OutboxStep : Type 0 where
  add : ℕ → DomainEventName → String → ℕ → Option ℕ → OutboxStep
  drain : ℕ → (ℕ → Bool) → ℕ → (DomainEvent → Option String) → OutboxStep

unfoldable pub outbox_step : OutboxStep → Outbox → Outbox
outbox_step (add now name kind id at) o = committed (enqueue now name kind id at o) o
outbox_step (drain now locked batch dispatch) o =
    committed (drain_domain_events now locked batch dispatch o) o

unfoldable pub outbox_steps : List OutboxStep → Outbox → Outbox
outbox_steps [] o = o
outbox_steps (s ∷ ss) o = outbox_steps ss (outbox_step s o)

outbox_step-AllBounded : (s : OutboxStep) (o : Outbox) → AllBounded o → AllBounded (outbox_step s o)
unfolding outbox_step drain_domain_events enqueue committed
outbox_step-AllBounded (add now name kind id at) o h =
    Every-insert IsBounded o.next_id _ o.events
      (record { tried = ground arith; retried = λ _. ground arith }) h
outbox_step-AllBounded (drain now locked batch dispatch) o h =
    committed_of_commits AllBounded (drain_domain_events now locked batch dispatch o) o
      (Yields-bind (λ es o'. All IsBounded es × AllBounded o') (λ _. AllBounded)
        (claim_batch now locked batch) (λ events. drain_all now dispatch events) o
        (claim_batch-Yields now locked batch o h)
        λ es o' (hes, h'). (drain_all-Keeps now dispatch es hes).at o' h')
      h

-- Whatever events are added, and whatever workers drain and however the handlers fail, no event keeps more than
-- eight attempts, and one that waits to be claimed at most seven, if that held before.
pub outbox_steps-AllBounded :
    (ss : List OutboxStep) (o : Outbox) → AllBounded o → AllBounded (outbox_steps ss o)
unfolding outbox_steps
outbox_steps-AllBounded [] o h = h
outbox_steps-AllBounded (s ∷ ss) o h =
    outbox_steps-AllBounded ss (outbox_step s o) (outbox_step-AllBounded s o h)
