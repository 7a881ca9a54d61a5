-- ===== src/Activity/Rows.antt =====
-- Laws of participant rows: what a written row changes, and how many seats are taken.
use dating_backend.Prelude.{
  ℕ, ◌+◌, ◌≤◌, ◌≡◌, ◌≢◌, refl, Option, none, some, List, [], ◌∷◌, if◌then◌else◌, arith, Bool-cases,
  inl, inr,
}
use dating_backend.Activity.Data.{ActivityParticipant, is_row, participant, put, has_seat, seats}

-- The seat that a row takes, and that the row found takes.
abbrev pub seat_of : ℕ → ActivityParticipant → ℕ
seat_of k row = if has_seat k row then 1 else 0

unfoldable pub seat_found : ℕ → Option ActivityParticipant → ℕ
seat_found k none = 0
seat_found k (some row) = seat_of k row

pub participant-put :
    (k u : ℕ) (row : ActivityParticipant) (rows : List ActivityParticipant)
    → participant k u (put row rows) ≡ (if is_row k u row then some row else participant k u rows)
unfolding participant put
participant-put k u row [] = ground arith
participant-put k u row (r ∷ rows) = ground (arith, participant-put k u row rows)

pub seats-put :
    (k : ℕ) (row : ActivityParticipant) (rows : List ActivityParticipant)
    → seats k (put row rows) + seat_found k (participant row.activity_id row.user_id rows)
      ≡ seats k rows + seat_of k row
unfolding seats participant put seat_found
seats-put k row [] = ground arith
seats-put k row (r ∷ rows) = ground (arith, seats-put k row rows)

pub participant-key :
    (k u : ℕ) (row : ActivityParticipant) (rows : List ActivityParticipant)
    → participant k u rows ≡ some row
    → (row.activity_id ≡ k) × (row.user_id ≡ u)
unfolding participant
participant-key k u row [] e = cc
participant-key k u row (r ∷ rows) e = ground (arith, participant-key k u row rows)

-- Two users' seats are two seats.
pub seats-two :
    (k u v : ℕ) (rows : List ActivityParticipant)
    → u ≢ v
    → seat_found k (participant k u rows) + seat_found k (participant k v rows) ≤ seats k rows
unfolding seats participant seat_found
seats-two k u v [] ne = ground arith
seats-two k u v (r ∷ rows) ne = ground (arith, ne, seats-two k u v rows ne)

-- No two rows are of the same activity and user.
abbrev pub IsUnique : List ActivityParticipant → Type 0
IsUnique [] = Unit
IsUnique (r ∷ rows) = (participant r.activity_id r.user_id rows ≡ none) × IsUnique rows

pub put-IsUnique :
    (row : ActivityParticipant) (rows : List ActivityParticipant)
    → IsUnique rows
    → IsUnique (put row rows)
unfolding put participant
put-IsUnique row [] h = (refl, tt)
put-IsUnique row (r ∷ rows) (new, h) = elim (Bool-cases (is_row row.activity_id row.user_id r)) [
  | inl same ↦ rw same (ground (arith, same), h)
  | inr other ↦ rw other (
    ground (arith, other, participant-put r.activity_id r.user_id row rows),
    put-IsUnique row rows h,
  )
]
