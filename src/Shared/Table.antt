-- ===== src/Shared/Table.antt =====
-- A database table keyed by its primary key, as rows in insertion order.
use dating_backend.Shared.Errors.{multiple_results_found}
use dating_backend.Shared.Action.{Action, pure, raise}
use dating_backend.Prelude.{
  ℕ, ◌≡◌, Bool, Option, none, some, List, [], ◌∷◌, arith, ◌==◌, if◌then◌else◌, true, ◌≢◌,
  Bool-cases, All, inl, inr, sym,
}

abbrev pub Table {ℓ} : Type ℓ → Type ℓ
Table V = List (ℕ × V)

module _ {ℓ} {V : Type ℓ} where
  -- `db.get(Model, key)`
  unfoldable pub lookup : ℕ → Table V → Option V
  lookup k [] = none
  lookup k ((j, v) ∷ t) = if j == k then some v else lookup k t

  -- `db.add(row)`, or the flush of a changed row.
  unfoldable pub insert : ℕ → V → Table V → Table V
  insert k v [] = (k, v) ∷ []
  insert k v ((j, w) ∷ t) = if j == k then (k, v) ∷ t else (j, w) ∷ insert k v t

  -- `db.delete(row)`
  unfoldable pub erase : ℕ → Table V → Table V
  erase k [] = []
  erase k ((j, w) ∷ t) = let rest = erase k t in if j == k then rest else (j, w) ∷ rest

  -- The rows that pass a `where` clause.
  unfoldable pub rows : (V → Bool) → Table V → List V
  rows p [] = []
  rows p ((_, v) ∷ t) = let rest = rows p t in if p v then v ∷ rest else rest

  pub lookup-insert :
      (k j : ℕ) (v : V) (t : Table V)
      → lookup j (insert k v t) ≡ (if k == j then some v else lookup j t)
  unfolding lookup insert
  lookup-insert k j v [] = ground arith
  lookup-insert k j v ((i, w) ∷ t) = ground (arith, lookup-insert k j v t)

  pub lookup-insert_at : (k j : ℕ) (v : V) (t : Table V) → k ≡ j → lookup j (insert k v t) ≡ some v
  lookup-insert_at k j v t e = ground (arith, lookup-insert k j v t)

  pub lookup-erase :
      (k j : ℕ) (t : Table V) → lookup j (erase k t) ≡ (if k == j then none else lookup j t)
  unfolding lookup erase
  lookup-erase k j [] = ground arith
  lookup-erase k j ((i, w) ∷ t) = ground (arith, lookup-erase k j t)

  -- A row that passes the test is among the rows that pass it.
  rows-ne-nil :
      (p : V → Bool) (k : ℕ) (v : V) (t : Table V)
      → lookup k t ≡ some v
      → p v ≡ true
      → rows p t ≢ []
  unfolding lookup rows
  rows-ne-nil p k v [] e h = cc
  rows-ne-nil p k v ((j, w) ∷ t) e h = ground (arith, rows-ne-nil p k v t)

  pub rows-head :
      (p : V → Bool) (v : V) (vs : List V) (t : Table V) → rows p t ≡ v ∷ vs → p v ≡ true
  unfolding rows
  rows-head p v vs [] e = cc
  rows-head p v vs ((j, w) ∷ t) e = ground (arith, rows-head p v vs t)

  -- Where one row passes a test, its changed version is the one that passes after the change.
  pub rows-insert_one :
      (p : V → Bool) (k : ℕ) (old v : V) (t : Table V)
      → lookup k t ≡ some old
      → rows p t ≡ old ∷ []
      → p old ≡ true
      → p v ≡ true
      → rows p (insert k v t) ≡ v ∷ []
  unfolding lookup rows insert
  rows-insert_one p k old v [] e one po pv = cc
  rows-insert_one p k old v ((j, w) ∷ t) e one po pv =
      ground (arith, rows-insert_one p k old v t, rows-ne-nil p k old t)

module _ {S V : Type 0} where
  -- `scalar_one_or_none()`: more than one row is an error.
  abbrev pub one_or_none : List V → Action S (Option V)
  one_or_none [] = pure none
  one_or_none (v ∷ []) = pure (some v)
  one_or_none (_ ∷ _ ∷ _) = raise multiple_results_found

-- A property of every row.
abbrev pub Every {ℓ} : {V : Type ℓ} → (V → Type 0) → Table V → Type 0
Every P [] = Unit
Every P ((_, v) ∷ t) = P v × Every P t

module _ {ℓ} {V : Type ℓ} (P : V → Type 0) where
  pub Every-insert : (k : ℕ) (v : V) (t : Table V) → P v → Every P t → Every P (insert k v t)
  unfolding insert
  Every-insert k v [] pv h = (pv, tt)
  Every-insert k v ((j, w) ∷ t) pv (pw, h) = elim (Bool-cases (j == k)) [
    | inl same ↦ rw same (pv, h)
    | inr other ↦ rw other (pw, Every-insert k v t pv h)
  ]

  pub Every-lookup : (k : ℕ) (v : V) (t : Table V) → Every P t → lookup k t ≡ some v → P v
  unfolding lookup
  Every-lookup k v [] h e = cc
  Every-lookup k v ((j, w) ∷ t) (pw, h) e = elim (Bool-cases (j == k)) [
    | inl same ↦ let is_v : w ≡ v = ground (arith, e, same) in rw (sym is_v) pw
    | inr other ↦ Every-lookup k v t h (ground (arith, e, other))
  ]

  -- The rows that pass a test have the property, and pass it.
  pub All-rows : (p : V → Bool) (t : Table V) → Every P t → All (λ v. P v × (p v ≡ true)) (rows p t)
  unfolding rows
  All-rows p [] h = tt
  All-rows p ((j, w) ∷ t) (pw, h) = elim (Bool-cases (p w)) [
    | inl passes ↦ rw passes ((pw, passes), All-rows p t h)
    | inr fails ↦ rw fails (All-rows p t h)
  ]

pub ruleset table_laws = (lookup-insert, lookup-erase)
