-- ===== src/Recommend/Tests.antt =====
-- Concrete items, on which the theorems apply.
use dating_backend.Prelude.{ℕ, ◌≡◌, String, Bool, List, [], ◌∷◌, count, ltb}
use dating_backend.Recommend.Diversify.{diversify}
use dating_backend.Recommend.Variety.{IsVaried, diversify-IsVaried}

abbrev category : ℕ × String → String
category item = item.1

abbrev later_items : List (ℕ × String)
later_items = (3, "hike") ∷ (4, "food") ∷ (5, "hike") ∷ []

abbrev is_early : ℕ × String → Bool
is_early item = ltb item.0 4

diversify-IsVaried_example :
    (rest : List (ℕ × String)) × (diversify category ((1, "hike") ∷ (2, "hike") ∷ later_items)
      ≡ (1, "hike") ∷ (2, "hike") ∷ rest)
    × IsVaried category (1, "hike") (2, "hike") rest
    × (count is_early (diversify category ((1, "hike") ∷ (2, "hike") ∷ later_items))
        ≡ count is_early ((1, "hike") ∷ (2, "hike") ∷ later_items))
diversify-IsVaried_example =
    diversify-IsVaried category (1, "hike") (2, "hike") later_items is_early
