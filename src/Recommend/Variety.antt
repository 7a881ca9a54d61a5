-- ===== src/Recommend/Variety.antt =====
-- Diversifying loses no item, and shows three of a category in a row only where it must.
use dating_backend.Prelude.{
  ℕ, zero, suc, ◌≤◌, ◌≡◌, refl, String, Bool, true, false, none, some, List, [], ◌∷◌, length, count,
  All, arith, Bool-cases, inl, inr, Option-cases, sym,
}
use dating_backend.Recommend.Diversify.{
  same_category, take_other, take_next, diversify_turns, diversify,
}

module _ {A : Type 0} (category : A → String) where
  module _ (q : A → Bool) where
    take_other-count :
        (x : A) (pool : List A) (alt : A) (rest : List A)
        → take_other category x pool ≡ some (alt, rest)
        → (count q (alt ∷ rest) ≡ count q pool) × (suc (length rest) ≡ length pool)
    unfolding take_other
    take_other-count x [] alt rest e = cc
    take_other-count x (p ∷ pool) alt rest e = elim (Bool-cases (same_category category x p)) [
      | inr differ ↦ (ground (arith, e, differ), ground (arith, e, differ))
      | inl same ↦ elim (Option-cases (take_other category x pool)) [
        | inl missing ↦ absurd (ground (arith, e, same, missing))
        | inr ((alt', rest'), found) ↦
            let ih = take_other-count x pool alt' rest' found in
            (ground (arith, e, same, found, ih.0), ground (arith, e, same, found, ih.1))
      ]
    ]

    take_next-count :
        (x y p : A) (pool : List A)
        → (count q ((take_next category x y p pool).0 ∷ (take_next category x y p pool).1)
            ≡ count q (p ∷ pool))
          × (length (take_next category x y p pool).1 ≡ length pool)
    unfolding take_next
    take_next-count x y p pool = elim (Bool-cases (same_category category x y)) [
      | inr differ ↦ rw differ (refl, refl)
      | inl same ↦ elim (Option-cases (take_other category x (p ∷ pool))) [
        | inl all_same ↦ rw same (rw all_same (refl, refl))
        | inr ((alt, rest), e) ↦
            let (counts, size) = take_other-count x (p ∷ pool) alt rest e in
            rw same (rw e (counts, ground (arith, size)))
      ]
    ]

    turns-count :
        (fuel : ℕ) (x y : A) (pool : List A)
        → length pool ≤ fuel
        → count q (diversify_turns category fuel x y pool) ≡ count q pool
    unfolding diversify_turns
    turns-count zero x y [] enough = refl
    turns-count zero x y (p ∷ pool) enough = absurd (omega arith)
    turns-count (suc fuel) x y [] enough = refl
    turns-count (suc fuel) x y (p ∷ pool) enough =
        let (counts, size) = take_next-count x y p pool in
        let taken = take_next category x y p pool in
        ground (arith, counts, turns-count fuel y taken.0 taken.1 (ground (arith, size)))

    -- For every test, as many items pass it after diversifying as before: the result is a rearrangement.
    pub count-diversify : (items : List A) → count q (diversify category items) ≡ count q items
    unfolding diversify
    count-diversify [] = refl
    count-diversify (x ∷ []) = refl
    count-diversify (x ∷ y ∷ pool) =
        ground (arith, turns-count (length pool) x y pool (omega arith))

  -- The results `zs` after `x` and `y`: a third of one category comes only where all that follows it
  -- is of that category too.
  abbrev pub IsVaried : A → A → List A → Type 0
  IsVaried x y [] = Unit
  IsVaried x y (z ∷ zs) =
      (same_category category x y ≡ true
        → same_category category x z ≡ true
        → All (λ w. same_category category x w ≡ true) zs)
      × IsVaried y z zs

  none_other :
      (x : A) (pool : List A)
      → take_other category x pool ≡ none
      → All (λ w. same_category category x w ≡ true) pool
  unfolding take_other
  none_other x [] e = tt
  none_other x (p ∷ pool) e = elim (Bool-cases (same_category category x p)) [
    | inr differ ↦ absurd (ground (arith, e, differ))
    | inl same ↦ elim (Option-cases (take_other category x pool)) [
      | inl missing ↦ (same, none_other x pool missing)
      | inr ((alt, rest), found) ↦ absurd (ground (arith, e, same, found))
    ]
  ]

  other_differs :
      (x : A) (pool : List A) (alt : A) (rest : List A)
      → take_other category x pool ≡ some (alt, rest)
      → same_category category x alt ≡ false
  unfolding take_other
  other_differs x [] alt rest e = cc
  other_differs x (p ∷ pool) alt rest e = elim (Bool-cases (same_category category x p)) [
    | inr differ ↦ ground (arith, e, differ)
    | inl same ↦ elim (Option-cases (take_other category x pool)) [
      | inl missing ↦ absurd (ground (arith, e, same, missing))
      | inr ((alt', rest'), found) ↦
          ground (arith, e, same, found, other_differs x pool alt' rest' found)
    ]
  ]

  module _ (P : A → Type 0) where
    take_other-All :
        (x : A) (pool : List A) (alt : A) (rest : List A)
        → All P pool
        → take_other category x pool ≡ some (alt, rest)
        → P alt × All P rest
    unfolding take_other
    take_other-All x [] alt rest h e = cc
    take_other-All x (p ∷ pool) alt rest (hp, h) e =
        elim (Bool-cases (same_category category x p)) [
          | inr differ ↦
              let is_alt : p ≡ alt = ground (arith, e, differ) in
              let is_rest : pool ≡ rest = ground (arith, e, differ) in
              (rw (sym is_alt) hp, rw (sym is_rest) h)
          | inl same ↦ elim (Option-cases (take_other category x pool)) [
            | inl missing ↦ absurd (ground (arith, e, same, missing))
            | inr ((alt', rest'), found) ↦
                let is_alt : alt' ≡ alt = ground (arith, e, same, found) in
                let is_rest : (p ∷ rest') ≡ rest = ground (arith, e, same, found) in
                let (ha, hr) = take_other-All x pool alt' rest' h found in
                (rw (sym is_alt) ha, rw (sym is_rest) (hp, hr))
          ]
        ]

    take_next-All :
        (x y p : A) (pool : List A)
        → All P (p ∷ pool)
        → P (take_next category x y p pool).0 × All P (take_next category x y p pool).1
    unfolding take_next
    take_next-All x y p pool h = elim (Bool-cases (same_category category x y)) [
      | inr differ ↦ rw differ h
      | inl same ↦ elim (Option-cases (take_other category x (p ∷ pool))) [
        | inl all_same ↦ rw same (rw all_same h)
        | inr ((alt, rest), e) ↦ rw same (rw e (take_other-All x (p ∷ pool) alt rest h e))
      ]
    ]

    turns-All :
        (fuel : ℕ) (x y : A) (pool : List A)
        → All P pool
        → All P (diversify_turns category fuel x y pool)
    unfolding diversify_turns
    turns-All zero x y pool h = tt
    turns-All (suc fuel) x y [] h = tt
    turns-All (suc fuel) x y (p ∷ pool) h =
        let taken = take_next category x y p pool in
        let (first, others) = take_next-All x y p pool h in
        (first, turns-All fuel y taken.0 taken.1 others)

  third_forced :
      (x y p : A) (pool : List A)
      → same_category category x y ≡ true
      → same_category category x (take_next category x y p pool).0 ≡ true
      → All (λ w. same_category category x w ≡ true) (take_next category x y p pool).1
  unfolding take_next
  third_forced x y p pool same third = elim (Option-cases (take_other category x (p ∷ pool))) [
    | inl all_same ↦ rw same (rw all_same (none_other x (p ∷ pool) all_same).1)
    | inr ((alt, rest), e) ↦
        absurd (ground (arith, same, e, third, other_differs x (p ∷ pool) alt rest e))
  ]

  turns-IsVaried :
      (fuel : ℕ) (x y : A) (pool : List A) → IsVaried x y (diversify_turns category fuel x y pool)
  unfolding diversify_turns
  turns-IsVaried zero x y pool = tt
  turns-IsVaried (suc fuel) x y [] = tt
  turns-IsVaried (suc fuel) x y (p ∷ pool) =
      let taken = take_next category x y p pool in
      (
        (λ same third.
            turns-All (λ w. same_category category x w ≡ true) fuel y taken.0 taken.1
              (third_forced x y p pool same third)),
        turns-IsVaried fuel y taken.0 taken.1,
      )

  -- After the first two items, a third item of one category in a row comes only where all the items
  -- after it are of that category too; and the result is a rearrangement: for every test, as many items pass it
  -- as before.
  pub diversify-IsVaried :
      (x y : A) (pool : List A) (q : A → Bool)
      → (rest : List A) × (diversify category (x ∷ y ∷ pool) ≡ x ∷ y ∷ rest)
        × IsVaried x y rest
        × (count q (diversify category (x ∷ y ∷ pool)) ≡ count q (x ∷ y ∷ pool))
  unfolding diversify
  diversify-IsVaried x y pool q = (
    diversify_turns category (length pool) x y pool,
    refl,
    turns-IsVaried (length pool) x y pool,
    count-diversify q (x ∷ y ∷ pool),
  )
