-- ===== src/Activity/Seats.antt =====
-- `join_count` counts the joined participants, the host among them.
use dating_backend.Prelude.{
  ℕ, ◌+◌, ◌≤◌, ◌≡◌, ◌≢◌, true, none, some, List, [], ◌∷◌, ◌==◌, if◌then◌else◌, arith, Bool-cases,
  inl, inr, ==_iff, sym,
}
use dating_backend.Shared.Table.{Table, lookup, insert, lookup-insert}
use dating_backend.Activity.Data.{
  Activity, ActivityDb, ActivityParticipant, is_joined, participant, put, seats,
}
use dating_backend.Activity.Rows.{
  seat_of, seat_found, participant-put, seats-put, IsUnique, put-IsUnique,
}

pub record IsHosted (k : ℕ) (a : Activity) (rows : List ActivityParticipant) : Type 0 where
  pub keyed : a.id ≡ k
  pub counted : a.join_count ≡ seats k rows
  pub hosted : seat_found k (participant k a.host_id rows) ≡ 1

pub record IsUnused (k : ℕ) (activities : Table Activity) (rows : List ActivityParticipant)
    : Type 0 where
  pub absent : lookup k activities ≡ none
  pub empty : seats k rows ≡ 0
  pub nobody : (u : ℕ) → participant k u rows ≡ none

pub record IsSeatedIn (activities : Table Activity) (rows : List ActivityParticipant) (next_id : ℕ)
    : Type 0 where
  pub unique : IsUnique rows
  pub seated : (k : ℕ) (a : Activity) → lookup k activities ≡ some a → IsHosted k a rows
  pub unused : (k : ℕ) → next_id ≤ k → IsUnused k activities rows
  pub referenced :
      (k u : ℕ) (row : ActivityParticipant)
      → participant k u rows ≡ some row
      → (a : Activity) × (lookup k activities ≡ some a)

abbrev pub IsSeated : ActivityDb → Type 0
IsSeated db = IsSeatedIn db.activities db.participants db.next_id

seat_other :
    (j k u : ℕ) (rows : List ActivityParticipant) → j ≢ k → seat_found j (participant k u rows) ≡ 0
unfolding seat_found participant
seat_other j k u [] ne = ground arith
seat_other j k u (r ∷ rows) ne = ground (arith, ne, seat_other j k u rows ne)

module _ (activities activities' : Table Activity) (rows : List ActivityParticipant) (next_id k : ℕ)
    (a a' : Activity) (row : ActivityParticipant) (h : IsSeatedIn activities rows next_id)
    (found : lookup k activities ≡ some a)
    (changed : (j : ℕ) → lookup j activities' ≡ (if k == j then some a' else lookup j activities))
    (same : a'.id ≡ k) (same_host : a'.host_id ≡ a.host_id) (of_k : row.activity_id ≡ k)
    (no_host : row.user_id ≢ a.host_id)
    (balance : a'.join_count + seat_found k (participant k row.user_id rows)
      ≡ a.join_count + seat_of k row) where
  this_seated : IsHosted k a' (put row rows)
  this_seated =
      let old = h.seated k a found in
      let sum = seats-put k row rows in
      record {
        keyed = same;
        counted = ground (arith, sum, old.counted, of_k, balance);
        hosted =
            ground (arith, old.hosted, participant-put k a'.host_id row rows, same_host, no_host);
      }

  other_seated : (j : ℕ) (b : Activity) → j ≢ k → IsHosted j b rows → IsHosted j b (put row rows)
  other_seated j b ne old =
      let sum = seats-put j row rows in
      let away = seat_other j k row.user_id rows ne in
      record {
        keyed = old.keyed;
        counted = ground (arith, sum, old.counted, of_k, away, ne);
        hosted = ground (arith, old.hosted, participant-put j b.host_id row rows, of_k, ne);
      }

  seated_after :
      (j : ℕ) (b : Activity) → lookup j activities' ≡ some b → IsHosted j b (put row rows)
  seated_after j b e = elim (Bool-cases (k == j)) [
    | inl this ↦
        let at : k ≡ j = (==_iff k j).0 this in
        let is_a : a' ≡ b = ground (arith, changed j, this) in rw (sym at, sym is_a) this_seated
    | inr other ↦
        let ne : j ≢ k = λ at. ground (arith, other) in
        other_seated j b ne (h.seated j b (ground (arith, changed j, other)))
  ]

  IsUnused-after : (j : ℕ) → next_id ≤ j → IsUnused j activities' (put row rows)
  IsUnused-after j later =
      let old = h.unused j later in
      let ne : j ≢ k = λ at. ground (arith, old.absent, found) in
      let sum = seats-put j row rows in
      let away = seat_other j k row.user_id rows ne in
      record {
        absent = ground (arith, changed j, old.absent, ne);
        empty = ground (arith, sum, old.empty, of_k, away, ne);
        nobody = λ u. ground (arith, old.nobody u, participant-put j u row rows, of_k, ne);
      }

  referenced_after :
      (j u : ℕ) (r : ActivityParticipant)
      → participant j u (put row rows) ≡ some r
      → (b : Activity) × (lookup j activities' ≡ some b)
  referenced_after j u r e = elim (Bool-cases (k == j)) [
    | inl this ↦ (a', ground (arith, changed j, this))
    | inr other ↦
        let (b, at) =
          h.referenced j u r (ground (arith, participant-put j u row rows, e, of_k, other)) in
        (b, ground (arith, changed j, other, at))
  ]

  -- A row written for one activity, and its count changed to match.
  pub rewritten : IsSeatedIn activities' (put row rows) next_id
  rewritten = record {
    unique = put-IsUnique row rows h.unique;
    seated = seated_after;
    unused = IsUnused-after;
    referenced = referenced_after;
  }

-- A new activity with its host in the first seat.
module _ (activities : Table Activity) (rows : List ActivityParticipant) (next_id : ℕ)
    (a : Activity) (row : ActivityParticipant) (h : IsSeatedIn activities rows next_id)
    (same : a.id ≡ next_id) (one : a.join_count ≡ 1) (of_a : row.activity_id ≡ next_id)
    (of_host : row.user_id ≡ a.host_id) (has : is_joined row.status ≡ true) where
  new_seated :
      (j : ℕ) (b : Activity)
      → lookup j (insert next_id a activities) ≡ some b
      → IsHosted j b (put row rows)
  unfolding seat_found
  new_seated j b e = elim (Bool-cases (next_id == j)) [
    | inl this ↦
        let is_a : a ≡ b = ground (arith, lookup-insert next_id j a activities, this) in
        let at : next_id ≡ j = (==_iff next_id j).0 this in
        let old = h.unused j (ground (arith, this)) in
        rw (sym is_a) (record {
          keyed = ground (arith, same, at);
          counted =
              ground (
                arith,
                seats-put j row rows,
                old.empty,
                old.nobody row.user_id,
                of_a,
                at,
                one,
                has,
              );
          hosted = ground (arith, participant-put j a.host_id row rows, of_a, of_host, at, has);
        })
    | inr other ↦
        let ne : j ≢ next_id = λ at. ground (arith, other) in
        let old = h.seated j b (ground (arith, lookup-insert next_id j a activities, other)) in
        let away = seat_other j next_id row.user_id rows ne in
        record {
          keyed = old.keyed;
          counted = ground (arith, seats-put j row rows, old.counted, of_a, away, ne);
          hosted = ground (arith, old.hosted, participant-put j b.host_id row rows, of_a, ne);
        }
  ]

  pub started : IsSeatedIn (insert next_id a activities) (put row rows) (next_id + 1)
  unfolding seat_found
  started = record {
    unique = put-IsUnique row rows h.unique;
    seated = new_seated;
    unused = λ j later.
        let old = h.unused j (ground (arith, later)) in
        record {
          absent = ground (arith, lookup-insert next_id j a activities, old.absent);
          empty = ground (
            arith,
            seats-put j row rows,
            old.empty,
            of_a,
            seat_other j next_id row.user_id rows (λ e. ground (arith, later)),
          );
          nobody = λ u. ground (arith, old.nobody u, participant-put j u row rows, of_a);
        };
    referenced = λ j u r e. elim (Bool-cases (next_id == j)) [
      | inl this ↦ (a, ground (arith, lookup-insert next_id j a activities, this))
      | inr other ↦
          let (b, at) =
            h.referenced j u r (ground (arith, participant-put j u row rows, e, of_a, other)) in
          (b, ground (arith, lookup-insert next_id j a activities, other, at))
    ];
  }
