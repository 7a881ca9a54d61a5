-- ===== src/Events/Rows.antt =====
-- The outbox as a table: an event is kept under its own id, and a new id is above those that were given out.
use dating_backend.Prelude.{
  ℕ, suc, ◌≤◌, ◌≡◌, refl, Bool, false, none, some, List, [], ◌∷◌, All, arith, Bool-cases, inl, inr,
  ◌==◌, ap,
}
use dating_backend.Shared.Table.{Table, lookup, insert, rows, lookup-insert}
use dating_backend.Events.{DomainEvent}

-- Every event has the key that it is kept under, and no other row has it.
abbrev pub IsKeyed : Table DomainEvent → Type 0
IsKeyed [] = Unit
IsKeyed ((j, e) ∷ t) = (e.id ≡ j) × (lookup j t ≡ none) × IsKeyed t

-- No id from `n` on is taken.
abbrev pub IsBelow : ℕ → Table DomainEvent → Type 0
IsBelow n [] = Unit
IsBelow n ((j, e) ∷ t) = (suc j ≤ n) × IsBelow n t

pub insert-IsKeyed :
    (k : ℕ) (e : DomainEvent) (t : Table DomainEvent)
    → e.id ≡ k
    → IsKeyed t
    → IsKeyed (insert k e t)
unfolding insert lookup
insert-IsKeyed k e [] own h = (own, refl, tt)
insert-IsKeyed k e ((j, d) ∷ t) own (hd, new, h) = elim (Bool-cases (j == k)) [
  | inl same ↦ rw same (own, ground (arith, same, new), h)
  | inr other ↦
      rw other (hd, ground (arith, lookup-insert k j e t, other, new), insert-IsKeyed k e t own h)
]

pub insert-IsBelow :
    (n k : ℕ) (e : DomainEvent) (t : Table DomainEvent)
    → suc k ≤ n
    → IsBelow n t
    → IsBelow n (insert k e t)
unfolding insert
insert-IsBelow n k e [] le h = (le, tt)
insert-IsBelow n k e ((j, d) ∷ t) le (hd, h) = elim (Bool-cases (j == k)) [
  | inl same ↦ rw same (le, h)
  | inr other ↦ rw other (hd, insert-IsBelow n k e t le h)
]

pub later-IsBelow : (n m : ℕ) (t : Table DomainEvent) → n ≤ m → IsBelow n t → IsBelow m t
later-IsBelow n m [] le h = tt
later-IsBelow n m ((j, d) ∷ t) le (hd, h) = (omega arith, later-IsBelow n m t le h)

-- An id that was not given out has no row.
pub IsBelow-lookup : (n k : ℕ) (t : Table DomainEvent) → n ≤ k → IsBelow n t → lookup k t ≡ none
unfolding lookup
IsBelow-lookup n k [] le h = refl
IsBelow-lookup n k ((j, d) ∷ t) le (hd, h) = ground (arith, IsBelow-lookup n k t le h)

pub lookup-IsBelow :
    (n k : ℕ) (e : DomainEvent) (t : Table DomainEvent)
    → lookup k t ≡ some e
    → IsBelow n t
    → suc k ≤ n
unfolding lookup
lookup-IsBelow n k e [] at h = cc
lookup-IsBelow n k e ((j, d) ∷ t) at (hd, h) = elim (Bool-cases (j == k)) [
  | inl same ↦ ground (arith, same)
  | inr other ↦ lookup-IsBelow n k e t (ground (arith, at, other)) h
]

-- The events of a keyed table that pass a test are found under their ids.
abbrev pub IsRow : Table DomainEvent → DomainEvent → Type 0
IsRow t e = lookup e.id t ≡ some e

-- No two events of a list have one id.
abbrev pub IsApart : ℕ → List DomainEvent → Type 0
IsApart k es = All (λ d. (d.id == k) ≡ false) es

abbrev pub AreDistinct : List DomainEvent → Type 0
AreDistinct [] = Unit
AreDistinct (e ∷ es) = IsApart e.id es × AreDistinct es

weaker-rows :
    (j : ℕ) (d : DomainEvent) (t : Table DomainEvent) (es : List DomainEvent)
    → lookup j t ≡ none
    → All (IsRow t) es
    → All (IsRow ((j, d) ∷ t)) es
unfolding lookup
weaker-rows j d t [] new h = tt
weaker-rows j d t (e ∷ es) new (he, h) = elim (Bool-cases (j == e.id)) [
  | inl same ↦
      let same_id : j ≡ e.id = ground (arith, same) in
      (ground (arith, he, new, ap (λ k. lookup k t) same_id), weaker-rows j d t es new h)
  | inr other ↦ (ground (arith, he, other), weaker-rows j d t es new h)
]

pub rows-IsRow :
    (p : DomainEvent → Bool) (t : Table DomainEvent) → IsKeyed t → All (IsRow t) (rows p t)
unfolding rows
rows-IsRow p [] h = tt
rows-IsRow p ((j, e) ∷ t) (own, new, h) =
    let below = weaker-rows j e t (rows p t) new (rows-IsRow p t h) in
    elim (Bool-cases (p e)) [
      | inl passes ↦ rw passes (unfold lookup in ground (arith, own), below)
      | inr fails ↦ rw fails below
    ]

apart :
    (j : ℕ) (t : Table DomainEvent) (es : List DomainEvent)
    → lookup j t ≡ none
    → All (IsRow t) es
    → IsApart j es
apart j t [] new h = tt
apart j t (e ∷ es) new (he, h) = elim (Bool-cases (e.id == j)) [
  | inl same ↦
      let same_id : e.id ≡ j = ground (arith, same) in
      (ground (arith, he, new, ap (λ k. lookup k t) same_id), apart j t es new h)
  | inr other ↦ (other, apart j t es new h)
]

pub rows-AreDistinct :
    (p : DomainEvent → Bool) (t : Table DomainEvent) → IsKeyed t → AreDistinct (rows p t)
unfolding rows
rows-AreDistinct p [] h = tt
rows-AreDistinct p ((j, e) ∷ t) (own, new, h) = elim (Bool-cases (p e)) [
  | inl passes ↦
      rw passes (rw own (apart j t (rows p t) new (rows-IsRow p t h)), rows-AreDistinct p t h)
  | inr fails ↦ rw fails (rows-AreDistinct p t h)
]
