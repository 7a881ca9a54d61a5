-- ===== src/Recommend/Diversify.antt =====
-- `diversify` of app/modules/recommend/activity_scorer.py, over items with a category.
use dating_backend.Prelude.{
  ℕ, zero, suc, String, Bool, Option, none, some, List, [], ◌∷◌, if◌then◌else◌, or_else, length,
}
use text.Mathlib.Text.{◌==◌ as str_eq}

module _ {A : Type 0} (category : A → String) where
  abbrev pub same_category : A → A → Bool
  same_category x y = str_eq (category x) (category y)

  -- `next((x for x in pool if ...), None)`, and the pool without it.
  unfoldable pub take_other : A → List A → Option (A × List A)
  take_other x [] = none
  take_other x (p ∷ pool) =
      if same_category x p
      then elim (take_other x pool) [ none ↦ none | some (alt, rest) ↦ some (alt, p ∷ rest) ]
      else some (p, pool)

  -- The item that the loop takes after `x` and `y`, and what it leaves.
  unfoldable pub take_next : A → A → A → List A → A × List A
  unfolding take_other
  take_next x y p pool =
      if same_category x y then or_else (take_other x (p ∷ pool)) (p, pool) else (p, pool)

  -- The loop after the last two results `x` and `y`: what it appends.
  unfoldable pub diversify_turns : ℕ → A → A → List A → List A
  unfolding take_next
  diversify_turns zero x y pool = []
  diversify_turns (suc fuel) x y [] = []
  diversify_turns (suc fuel) x y (p ∷ pool) =
      let taken = take_next x y p pool in taken.0 ∷ diversify_turns fuel y taken.0 taken.1

  -- Each turn takes one item out of the pool.
  unfoldable pub diversify : List A → List A
  unfolding diversify_turns
  diversify [] = []
  diversify (x ∷ []) = x ∷ []
  diversify (x ∷ y ∷ pool) = x ∷ y ∷ diversify_turns (length pool) x y pool
