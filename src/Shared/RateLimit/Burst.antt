-- ===== src/Shared/RateLimit/Burst.antt =====
-- How many requests of a client a limited bucket lets through.
use dating_backend.Prelude.{
  ℕ, suc, ◌≡◌, ap, ◌<◌, ◌+◌, min, arith, String, true, false, List, [], ◌∷◌, All, Bool-cases, inl,
  inr, ltb,
}
use dating_backend.Shared.RateLimit.{
  Redis, RedisLaws, RateCheck, rate_key, max_hits, window, enforce_rate_limit, start_window, passed,
  asked, is_passed,
}
use text.Mathlib.TextEquality.{eq_iff}
use text.Mathlib.Text.{◌==◌ as str_eq}

-- A request of the key has the limit, and every window is positive.
abbrev pub IsLimited : ℕ → String → ℕ → RateCheck → Type 0
IsLimited per_minute k limit r =
    (str_eq (rate_key r) k ≡ true → max_hits per_minute r ≡ limit) × (0 < window r)

module _ {Store : Type 0} (redis : Redis Store) (laws : RedisLaws redis) (per_minute : ℕ)
    (k : String) (limit : ℕ) (is_on : 0 < limit) where
  count-start_window :
      (key : String) (time n : ℕ) (s : Store)
      → 0 < time
      → redis.count k (start_window redis key time (n, s)) ≡ redis.count k s
  unfolding start_window
  count-start_window key time n s h = ground (arith, laws.expire_count key k time s h)

  passed_of_own :
      (r : RateCheck) (s : Store)
      → str_eq (rate_key r) k ≡ true
      → IsLimited per_minute k limit r
      → (redis.count k (enforce_rate_limit redis per_minute r s).1 ≡ suc (redis.count k s))
        × (is_passed (enforce_rate_limit redis per_minute r s).0 ≡ ltb (redis.count k s) limit)
  unfolding enforce_rate_limit
  passed_of_own r s own (fits, timed) =
      let on : max_hits per_minute r ≡ limit = fits own in
      let counts = laws.incr_count (rate_key r) k s in
      let answer = laws.incr_value (rate_key r) s in
      let same = ap (λ key. redis.count key s) ((eq_iff (rate_key r) k).0 own) in
      let kept =
        count-start_window (rate_key r) (window r) (redis.incr (rate_key r) s).0
          (redis.incr (rate_key r) s).1 timed in
      (ground (arith, on, counts, kept, own), ground (arith, on, answer, same))

  count_of_other :
      (r : RateCheck) (s : Store)
      → str_eq (rate_key r) k ≡ false
      → 0 < window r
      → redis.count k (enforce_rate_limit redis per_minute r s).1 ≡ redis.count k s
  unfolding enforce_rate_limit
  count_of_other r s other timed =
      let counts = laws.incr_count (rate_key r) k s in
      let kept =
        count-start_window (rate_key r) (window r) (redis.incr (rate_key r) s).0
          (redis.incr (rate_key r) s).1 timed in
      ground (arith, counts, kept, other)

  passed-asked :
      (rs : List RateCheck) (s : Store)
      → All (IsLimited per_minute k limit) rs
      → passed redis per_minute k rs s + min limit (redis.count k s)
        ≡ min limit (redis.count k s + asked k rs)
  unfolding passed asked
  passed-asked [] s h = ground arith
  passed-asked (r ∷ rs) s (fits, h) =
      let rest = passed-asked rs (enforce_rate_limit redis per_minute r s).1 h in
      elim (Bool-cases (str_eq (rate_key r) k)) [
        | inl own ↦
            let (counts, outcome) = passed_of_own r s own fits in
            ground (arith, rest, own, counts, outcome)
        | inr other ↦
            let counts = count_of_other r s other fits.1 in ground (arith, rest, other, counts)
      ]

-- From an unused counter and while it lives, a positive limit lets through the requests of one client to one
-- bucket until the limit is reached, and no more, whatever requests of others come between.
pub passed_to_limit :
    {Store : Type 0} (redis : Redis Store) (laws : RedisLaws redis) (per_minute : ℕ) (k : String)
    (limit : ℕ) (rs : List RateCheck) (s : Store)
    → 0 < limit
    → All (IsLimited per_minute k limit) rs
    → redis.count k s ≡ 0
    → passed redis per_minute k rs s ≡ min limit (asked k rs)
passed_to_limit redis laws per_minute k limit rs s is_on h fresh =
    ground (arith, passed-asked redis laws per_minute k limit is_on rs s h, fresh)
