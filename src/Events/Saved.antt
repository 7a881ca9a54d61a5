-- ===== src/Events/Saved.antt =====
-- The rows of the outbox after the changed events of a batch were written back.
use dating_backend.Prelude.{
  ℕ, suc, ◌≤◌, ◌≡◌, refl, Bool, true, false, Option, none, some, List, [], ◌∷◌, map, All, any,
  arith, Bool-cases, inl, inr, ◌==◌, ap, if◌then◌else◌, ◌∙◌, ◌+◌,
}
use dating_backend.Shared.Table.{Table, lookup, insert, lookup-insert, lookup-insert_at}
use dating_backend.Events.{DomainEvent, DomainEventStatus, claimed, save_all}
use dating_backend.Events.Rows.{
  IsKeyed, IsBelow, IsRow, IsApart, AreDistinct, insert-IsKeyed, insert-IsBelow,
}

-- Whether an event of that id is in the list.
abbrev pub is_in : ℕ → List DomainEvent → Bool
is_in k es = any (λ e. e.id == k) es

-- An event that a worker has taken: it is being processed, and was tried once more.
abbrev pub taken : DomainEvent → DomainEvent
taken e = record e { status = DomainEventStatus.processing; attempts = e.attempts + 1 }

unfoldable pub taken_row : Option DomainEvent → Option DomainEvent
taken_row none = none
taken_row (some e) = some (taken e)

pub apart-is_in : (k : ℕ) (es : List DomainEvent) → IsApart k es → is_in k es ≡ false
apart-is_in k [] h = refl
apart-is_in k (e ∷ es) (he, h) = ground (arith, he, apart-is_in k es h)

IsApart-claimed : (k : ℕ) (es : List DomainEvent) → IsApart k es → IsApart k (map claimed es)
IsApart-claimed k [] h = tt
IsApart-claimed k (e ∷ es) (he, h) = (he, IsApart-claimed k es h)

pub AreDistinct-claimed : (es : List DomainEvent) → AreDistinct es → AreDistinct (map claimed es)
AreDistinct-claimed [] h = tt
AreDistinct-claimed (e ∷ es) (he, h) = (IsApart-claimed e.id es he, AreDistinct-claimed es h)

pub save_all-IsKeyed :
    (es : List DomainEvent) (t : Table DomainEvent) → IsKeyed t → IsKeyed (save_all es t)
unfolding save_all
save_all-IsKeyed [] t h = h
save_all-IsKeyed (e ∷ es) t h =
    save_all-IsKeyed es (insert e.id e t) (insert-IsKeyed e.id e t refl h)

pub save_all-IsBelow :
    (n : ℕ) (es : List DomainEvent) (t : Table DomainEvent)
    → All (λ e. suc e.id ≤ n) es
    → IsBelow n t
    → IsBelow n (save_all es t)
unfolding save_all
save_all-IsBelow n [] t le h = h
save_all-IsBelow n (e ∷ es) t (le, les) h =
    save_all-IsBelow n es (insert e.id e t) les (insert-IsBelow n e.id e t le h)

-- A row of another id is left alone.
pub save_all-apart :
    (k : ℕ) (es : List DomainEvent) (t : Table DomainEvent)
    → IsApart k es
    → lookup k (save_all es t) ≡ lookup k t
unfolding save_all
save_all-apart k [] t h = refl
save_all-apart k (e ∷ es) t (he, h) =
    save_all-apart k es (insert e.id e t) h ∙ ground (arith, lookup-insert e.id k e t, he)

-- What was written is there.
pub save_all-IsRow :
    (es : List DomainEvent) (t : Table DomainEvent)
    → AreDistinct es
    → All (IsRow (save_all es t)) es
unfolding save_all
save_all-IsRow [] t h = tt
save_all-IsRow (e ∷ es) t (he, h) = (
  save_all-apart e.id es (insert e.id e t) he ∙ lookup-insert_at e.id e.id e t refl,
  save_all-IsRow es (insert e.id e t) h,
)

rows_after :
    (e : DomainEvent) (es : List DomainEvent) (t : Table DomainEvent)
    → IsApart e.id es
    → All (IsRow t) es
    → All (IsRow (insert e.id e t)) es
rows_after e [] t far h = tt
rows_after e (d ∷ ds) t (fd, far) (hd, h) =
    (ground (arith, lookup-insert e.id d.id e t, fd, hd), rows_after e ds t far h)

head_taken :
    (k : ℕ) (e : DomainEvent) (t : Table DomainEvent)
    → IsRow t e
    → (e.id == k) ≡ true
    → lookup k (insert e.id (claimed e) t) ≡ taken_row (lookup k t)
unfolding taken_row
head_taken k e t row same =
    let same_id : e.id ≡ k = ground (arith, same) in
    let at : lookup k t ≡ some e = ground (arith, row, ap (λ j. lookup j t) same_id) in
    ground (arith, lookup-insert e.id k (claimed e) t, same, ap taken_row at)

far_from : (k j : ℕ) (es : List DomainEvent) → (j == k) ≡ true → IsApart j es → IsApart k es
far_from k j [] same far = tt
far_from k j (e ∷ es) same (fe, far) = (ground (arith, same, fe), far_from k j es same far)

-- The row of an id, once the claimed versions of the events of a batch were written.
pub lookup-save_claimed :
    (k : ℕ) (due : List DomainEvent) (t : Table DomainEvent)
    → All (IsRow t) due
    → AreDistinct due
    → lookup k (save_all (map claimed due) t)
      ≡ (if is_in k due then taken_row (lookup k t) else lookup k t)
unfolding save_all
lookup-save_claimed k [] t row apart = refl
lookup-save_claimed k (e ∷ es) t (re, row) (far, apart) =
    let rest =
      lookup-save_claimed k es (insert e.id (claimed e) t) (rows_after (claimed e) es t far row)
        apart in
    elim (Bool-cases (e.id == k)) [
      | inl same ↦
          let gone : is_in k es ≡ false = apart-is_in k es (far_from k e.id es same far) in
          ground (arith, rest, gone, same, head_taken k e t re same)
      | inr other ↦ ground (arith, rest, other, lookup-insert e.id k (claimed e) t)
    ]
