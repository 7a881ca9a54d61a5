-- ===== src/Shared/Pairs.antt =====
-- A database table whose rows are unique by a pair of columns, as a unique constraint keeps them.
use dating_backend.Prelude.{
  ℕ, ◌+◌, ◌≤◌, ◌≡◌, ◌≢◌, refl, Bool, false, ◌&&◌, Option, none, some, List, [], ◌∷◌, arith, ◌==◌,
  if◌then◌else◌,
}

abbrev pub PairTable {ℓ} : Type ℓ → Type ℓ
PairTable V = List (ℕ × ℕ × V)

module _ {ℓ} {V : Type ℓ} where
  -- `select(Model).where(Model.a == a, Model.b == b)`
  unfoldable pub get : ℕ → ℕ → PairTable V → Option V
  get a b [] = none
  get a b ((i, j, v) ∷ t) = if i == a && j == b then some v else get a b t

  -- `db.add(row)`, or the flush of a changed row.
  unfoldable pub put : ℕ → ℕ → V → PairTable V → PairTable V
  put a b v [] = (a, b, v) ∷ []
  put a b v ((i, j, w) ∷ t) =
      let rest = put a b v t in if i == a && j == b then (a, b, v) ∷ t else (i, j, w) ∷ rest

  -- `db.delete(row)`
  unfoldable pub drop_pair : ℕ → ℕ → PairTable V → PairTable V
  drop_pair a b [] = []
  drop_pair a b ((i, j, w) ∷ t) =
      let rest = drop_pair a b t in if i == a && j == b then rest else (i, j, w) ∷ rest

  -- `db.delete(row)`, of the one row that was found.
  unfoldable pub drop_one : ℕ → ℕ → PairTable V → PairTable V
  drop_one a b [] = []
  drop_one a b ((i, j, w) ∷ t) =
      let rest = drop_one a b t in if i == a && j == b then t else (i, j, w) ∷ rest

  -- How many rows of `a` pass a test.
  unfoldable pub count_of : (V → Bool) → ℕ → PairTable V → ℕ
  count_of p a [] = 0
  count_of p a ((i, j, v) ∷ t) = (if i == a && p v then 1 else 0) + count_of p a t

  -- The rows of `a` that pass a test.
  unfoldable pub rows_of : (V → Bool) → ℕ → PairTable V → List V
  rows_of p a [] = []
  rows_of p a ((i, j, v) ∷ t) = let rest = rows_of p a t in if i == a && p v then v ∷ rest else rest

  -- A write to every row of `a`.
  unfoldable pub update_of : (V → V) → ℕ → PairTable V → PairTable V
  update_of f a [] = []
  update_of f a ((i, j, v) ∷ t) = (i, j, if i == a then f v else v) ∷ update_of f a t

  -- One for a row that passes the test.
  abbrev pub one_if : (V → Bool) → Option V → ℕ
  one_if p none = 0
  one_if p (some v) = if p v then 1 else 0

  pub get-put :
      (a b i j : ℕ) (v : V) (t : PairTable V)
      → get i j (put a b v t) ≡ (if a == i && b == j then some v else get i j t)
  unfolding get put
  get-put a b i j v [] = ground arith
  get-put a b i j v ((m, n, w) ∷ t) = ground (arith, get-put a b i j v t)

  pub get-drop_pair :
      (a b i j : ℕ) (t : PairTable V)
      → get i j (drop_pair a b t) ≡ (if a == i && b == j then none else get i j t)
  unfolding get drop_pair
  get-drop_pair a b i j [] = ground arith
  get-drop_pair a b i j ((m, n, w) ∷ t) = ground (arith, get-drop_pair a b i j t)

  pub count_of-put :
      (p : V → Bool) (k a b : ℕ) (v : V) (t : PairTable V)
      → count_of p k (put a b v t) + (if a == k then one_if p (get a b t) else 0)
        ≡ count_of p k t + (if a == k && p v then 1 else 0)
  unfolding count_of get put
  count_of-put p k a b v [] = ground arith
  count_of-put p k a b v ((i, j, w) ∷ t) = ground (arith, count_of-put p k a b v t)

  -- A row that passes is counted.
  pub one_if-le-count_of :
      (p : V → Bool) (a b : ℕ) (t : PairTable V) → one_if p (get a b t) ≤ count_of p a t
  unfolding count_of get
  one_if-le-count_of p a b [] = ground arith
  one_if-le-count_of p a b ((i, j, w) ∷ t) = ground (arith, one_if-le-count_of p a b t)

  pub get-update_of :
      (f : V → V) (a i j : ℕ) (t : PairTable V)
      → get i j (update_of f a t)
        ≡ (if i == a then elim (get i j t) [ none ↦ none | some v ↦ some (f v) ] else get i j t)
  unfolding get update_of
  get-update_of f a i j [] = ground arith
  get-update_of f a i j ((m, n, w) ∷ t) = ground (arith, get-update_of f a i j t)

  pub count_of-update_of_other :
      (p : V → Bool) (f : V → V) (a k : ℕ) (t : PairTable V)
      → k ≢ a
      → count_of p k (update_of f a t) ≡ count_of p k t
  unfolding count_of update_of
  count_of-update_of_other p f a k [] ne = refl
  count_of-update_of_other p f a k ((m, n, w) ∷ t) ne =
      ground (arith, ne, count_of-update_of_other p f a k t ne)

  -- A write that leaves no row passing.
  pub count_of-update_of_none :
      (p : V → Bool) (f : V → V) (a : ℕ) (t : PairTable V)
      → ((v : V) → p (f v) ≡ false)
      → count_of p a (update_of f a t) ≡ 0
  unfolding count_of update_of
  count_of-update_of_none p f a [] h = refl
  count_of-update_of_none p f a ((m, n, w) ∷ t) h =
      ground (arith, h w, count_of-update_of_none p f a t h)

  pub count_of-drop_one :
      (p : V → Bool) (k a b : ℕ) (t : PairTable V)
      → count_of p k (drop_one a b t) + (if a == k then one_if p (get a b t) else 0)
        ≡ count_of p k t
  unfolding count_of get drop_one
  count_of-drop_one p k a b [] = ground arith
  count_of-drop_one p k a b ((i, j, w) ∷ t) = ground (arith, count_of-drop_one p k a b t)
