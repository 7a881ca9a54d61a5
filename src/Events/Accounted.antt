-- ===== src/Events/Accounted.antt =====
-- Draining what was claimed leaves the attempts that the rows keep as they are.
use dating_backend.Prelude.{
  ℕ, suc, ◌≤◌, ◌≡◌, refl, true, Option, none, some, List, [], ◌∷◌, All, arith, Bool-cases,
  Option-cases, inl, inr, ◌==◌, ltb, ap, ◌∙◌, String,
}
use dating_backend.Shared.Action.{Result, ok, err, committed}
use dating_backend.Shared.Action.Keeps.{Returns, Returns-bind}
use dating_backend.Shared.Table.{Table, lookup, insert, lookup-insert, lookup-insert_at}
use dating_backend.Events.{
  DomainEvent, Outbox, finished, failed_event, max_attempts, mark_done, mark_failed, drain_one,
  drain_all,
}
use dating_backend.Events.Rows.{
  IsKeyed, IsBelow, IsRow, insert-IsKeyed, insert-IsBelow, lookup-IsBelow,
}

unfoldable pub attempts_of : Option DomainEvent → ℕ
attempts_of none = 0
attempts_of (some e) = e.attempts

-- The attempts that the row of an id keeps; none where there is no such row.
abbrev pub tries : ℕ → Table DomainEvent → ℕ
tries k t = attempts_of (lookup k t)

-- The rows keep these attempts, under their own ids, all below the next one.
pub record IsAccounted (f : ℕ → ℕ) (n : ℕ) (o : Outbox) : Type 0 where
  pub counts : (j : ℕ) → tries j o.events ≡ f j
  pub keyed : IsKeyed o.events
  pub below : IsBelow n o.events
  pub next : o.next_id ≡ n

-- An event that was given out, and keeps the attempts that its row has.
abbrev pub IsAgreed : (ℕ → ℕ) → ℕ → DomainEvent → Type 0
IsAgreed f n e = (e.attempts ≡ f e.id) × (suc e.id ≤ n)

module _ (f : ℕ → ℕ) (n : ℕ) where
  saved-IsAccounted :
      (e : DomainEvent) (o : Outbox)
      → IsAgreed f n e
      → IsAccounted f n o
      → IsAccounted f n (record o { events = insert e.id e o.events })
  unfolding attempts_of
  saved-IsAccounted e o (same, low) h = record {
    counts = λ j. elim (Bool-cases (e.id == j)) [
      | inl at ↦
          let found : lookup j (insert e.id e o.events) ≡ some e =
            lookup-insert_at e.id j e o.events (ground (arith, at)) in
          ap attempts_of found ∙ same ∙ ap f (ground (arith, at))
      | inr other ↦
          let found : lookup j (insert e.id e o.events) ≡ lookup j o.events =
            ground (arith, lookup-insert e.id j e o.events, other) in
          ap attempts_of found ∙ h.counts j
    ];
    keyed = insert-IsKeyed e.id e o.events refl h.keyed;
    below = insert-IsBelow n e.id e o.events low h.below;
    next = h.next;
  }

  failed_event-IsAgreed :
      (now : ℕ) (error : String) (e : DomainEvent)
      → IsAgreed f n e
      → IsAgreed f n (failed_event now error true e)
  unfolding failed_event
  failed_event-IsAgreed now error e h = elim (Bool-cases (ltb e.attempts max_attempts)) [
    | inl again ↦ rw again h
    | inr over ↦ rw over h
  ]

  drain_one-IsAccounted :
      (now : ℕ) (dispatch : DomainEvent → Option String) (e : DomainEvent) (o : Outbox)
      → IsAgreed f n e
      → IsAccounted f n o
      → Returns (λ _. IsAccounted f n) (drain_one now dispatch e o)
  unfolding drain_one mark_done mark_failed finished
  drain_one-IsAccounted now dispatch e o he h = elim (Option-cases (dispatch e)) [
    | inl done ↦ rw (done, Returns) (saved-IsAccounted (finished now e) o he h)
    | inr (error, failed) ↦
        rw (failed, Returns)
          (saved-IsAccounted (failed_event now error true e) o
            (failed_event-IsAgreed now error e he) h)
  ]

  -- Draining what was claimed always ends, and changes no attempts.
  pub drain_all-IsAccounted :
      (now : ℕ) (dispatch : DomainEvent → Option String) (es : List DomainEvent) (o : Outbox)
      → All (IsAgreed f n) es
      → IsAccounted f n o
      → Returns (λ _. IsAccounted f n) (drain_all now dispatch es o)
  unfolding drain_all
  drain_all-IsAccounted now dispatch [] o hs h = h
  drain_all-IsAccounted now dispatch (e ∷ es) o (he, hs) h =
      Returns-bind (λ _. IsAccounted f n) (λ _. IsAccounted f n) (drain_one now dispatch e) _ o
        (drain_one-IsAccounted now dispatch e o he h)
        λ _ o1 h1.
          Returns-bind (λ _. IsAccounted f n) (λ _. IsAccounted f n) (drain_all now dispatch es) _
            o1 (drain_all-IsAccounted now dispatch es o1 hs h1) λ _ o2 h2. h2

pub committed_of_returns :
    {A : Type 0} (P : Outbox → Type 0) (r : Result (A × Outbox)) (o : Outbox)
    → Returns (λ _. P) r
    → P (committed r o)
unfolding committed
committed_of_returns P (ok (_, o')) o h = h
committed_of_returns P (err e) o h = absurd h

pub agreed :
    (n : ℕ) (t : Table DomainEvent) (es : List DomainEvent)
    → All (IsRow t) es
    → IsBelow n t
    → All (IsAgreed (λ j. tries j t) n) es
unfolding attempts_of
agreed n t [] row below = tt
agreed n t (e ∷ es) (re, row) below =
    ((rw re refl, lookup-IsBelow n e.id e t re below), agreed n t es row below)
