-- ===== src/Activity/Order.antt =====
-- Whom the waitlist promotes next: nobody who may be promoted has waited longer.
use dating_backend.Prelude.{
  ℕ, ◌≡◌, refl, true, false, Option, none, some, List, [], ◌∷◌, ◌&&◌, not, All, arith, Bool-cases,
  inl, inr, Option-cases,
}
use dating_backend.Activity.Data.{ActivityParticipant}
use dating_backend.Activity.Participation.{ActivityEnv, waits, next_waitlisted, is_earlier}

earlier_trans :
    (p q r : Option ℕ) → is_earlier r q ≡ false → is_earlier q p ≡ false → is_earlier r p ≡ false
unfolding is_earlier
earlier_trans none q none a b = refl
earlier_trans none none (some r) a b = cc
earlier_trans none (some q) (some r) a b = cc
earlier_trans (some p) q none a b = refl
earlier_trans (some p) none (some r) a b = cc
earlier_trans (some p) (some q) (some r) a b = ground (arith, a, b)

earlier_asym : (p q : Option ℕ) → is_earlier p q ≡ true → is_earlier q p ≡ false
unfolding is_earlier
earlier_asym none q h = cc
earlier_asym (some p) none h = refl
earlier_asym (some p) (some q) h = ground (arith, h)

earlier_irrefl : (p : Option ℕ) → is_earlier p p ≡ false
unfolding is_earlier
earlier_irrefl none = refl
earlier_irrefl (some p) = ground arith

module _ (env : ActivityEnv) (k : ℕ) where
  -- The row is promoted no later than any that waits.
  abbrev pub IsFirst : ActivityParticipant → List ActivityParticipant → Type 0
  IsFirst row rows =
      All (λ r. waits env k r ≡ true → is_earlier r.waitlisted_at row.waitlisted_at ≡ false) rows

  -- Where nobody is found, nobody waits.
  nobody :
      (rows : List ActivityParticipant) (row : ActivityParticipant)
      → next_waitlisted env k rows ≡ none
      → IsFirst row rows
  unfolding next_waitlisted
  nobody [] row e = tt
  nobody (r ∷ rows) row e = (λ w. ground (arith, w, e), nobody rows row (ground (arith, e)))

  IsFirst-step :
      (rows : List ActivityParticipant) (row q : ActivityParticipant)
      → is_earlier q.waitlisted_at row.waitlisted_at ≡ false
      → IsFirst q rows
      → IsFirst row rows
  IsFirst-step [] row q le h = tt
  IsFirst-step (r ∷ rows) row q le (hr, h) = (
    λ w. earlier_trans row.waitlisted_at q.waitlisted_at r.waitlisted_at (hr w) le,
    IsFirst-step rows row q le h,
  )

  -- The row that the waitlist promotes next waits for this activity, and no row that may be promoted
  -- has waited longer.
  pub next_waitlisted-IsFirst :
      (rows : List ActivityParticipant) (row : ActivityParticipant)
      → next_waitlisted env k rows ≡ some row
      → (waits env k row ≡ true) × IsFirst row rows
  unfolding next_waitlisted
  next_waitlisted-IsFirst [] row e = cc
  next_waitlisted-IsFirst (r ∷ rows) row e = elim (Option-cases (next_waitlisted env k rows)) [
    | inl missing ↦
        let is_r : r ≡ row = ground (arith, e, missing) in
        (
          ground (arith, e, missing),
          ((λ w. ground (arith, is_r, earlier_irrefl r.waitlisted_at)), nobody rows row missing),
        )
    | inr (q, found) ↦
        let (wq, hq) = next_waitlisted-IsFirst rows q found in
        elim (Bool-cases (waits env k r && not (is_earlier q.waitlisted_at r.waitlisted_at))) [
          | inl chosen ↦
              let is_r : r ≡ row = ground (arith, e, found, chosen) in
              (
                ground (arith, is_r, chosen),
                (
                  (λ w. ground (arith, is_r, earlier_irrefl r.waitlisted_at)),
                  IsFirst-step rows row q (ground (arith, is_r, chosen)) hq,
                ),
              )
          | inr passed ↦
              let is_q : q ≡ row = ground (arith, e, found, passed) in
              (
                ground (arith, is_q, wq),
                (
                  (λ w.
                      ground
                        (arith, is_q, passed, w, earlier_asym q.waitlisted_at r.waitlisted_at)),
                  IsFirst-step rows row q (ground (arith, is_q, earlier_irrefl q.waitlisted_at)) hq,
                ),
              )
        ]
  ]
