-- ===== src/Shared/RateLimit.antt =====
-- app/shared/rate_limit.py: a counter of requests per bucket and client, kept in Redis. A limit or a window
-- below zero is written as zero, and the counters stay alive through the requests that are modelled.
pub mod Burst
mod Tests
use dating_backend.Prelude.{
  ℕ, zero, suc, ◌≡◌, ◌<◌, String, Bool, true, false, Option, none, some, List, [], ◌∷◌,
  if◌then◌else◌, ◌==◌, ltb, leb, ◌&&◌,
}
use dating_backend.Shared.Errors.{Failure, app_error, auth_rate_limit}
use Prim.Native.String.{◌++◌}
use text.Mathlib.Text.{◌==◌ as str_eq}

-- The commands of Redis that the code sends, and `count`, the value that a GET of the key would read.
pub record Redis (Store : Type 0) : Type 0 where
  pub incr : String → Store → ℕ × Store
  pub expire : String → ℕ → Store → Store
  pub count : String → Store → ℕ

-- INCR adds one to its key and answers the new value; EXPIRE with a positive time keeps the values until
-- that time has passed.
pub record RedisLaws {Store : Type 0} (redis : Redis Store) : Type 0 where
  pub incr_value : (k : String) (s : Store) → (redis.incr k s).0 ≡ suc (redis.count k s)
  pub incr_count :
      (k j : String) (s : Store)
      → redis.count j (redis.incr k s).1
        ≡ (if str_eq k j then suc (redis.count j s) else redis.count j s)
  pub expire_count :
      (k j : String) (time : ℕ) (s : Store)
      → 0 < time
      → redis.count j (redis.expire k time s) ≡ redis.count j s

-- A call of `enforce_rate_limit`: what it reads from the request, and its arguments.
pub record RateCheck : Type 0 where
  pub client : Option String
  pub rate_limit_user : Option String
  pub bucket : String
  pub limit : Option ℕ
  pub window_seconds : Option ℕ

unfoldable pub max_hits : ℕ → RateCheck → ℕ
max_hits rate_limit_per_minute r = elim r.limit [ none ↦ rate_limit_per_minute | some n ↦ n ]

unfoldable pub window : RateCheck → ℕ
window r = elim r.window_seconds [ none ↦ 60 | some n ↦ n ]

abbrev pub client_host : RateCheck → String
client_host r = elim r.client [ none ↦ "unknown" | some host ↦ host ]

unfoldable pub user_key : RateCheck → String
user_key r = elim r.rate_limit_user [
  | none ↦ client_host r
  | some user ↦ if str_eq user "" then client_host r else user
]

unfoldable pub rate_key : RateCheck → String
rate_key r = "rl:" ++ (r.bucket ++ (":" ++ user_key r))

module _ {Store : Type 0} (redis : Redis Store) where
  unfoldable pub start_window : String → ℕ → ℕ × Store → Store
  start_window key time (n, s) = if n == 1 then redis.expire key time s else s

  unfoldable pub enforce_rate_limit : ℕ → RateCheck → Store → Option Failure × Store
  enforce_rate_limit per_minute r s =
      let hit = redis.incr (rate_key r) s in
      if leb (max_hits per_minute r) 0 then (none, s) else (
        if ltb (max_hits per_minute r) hit.0 then some (app_error auth_rate_limit 429) else none,
        start_window (rate_key r) (window r) hit,
      )

abbrev pub is_passed : Option Failure → Bool
is_passed none = true
is_passed (some _) = false

-- Requests one after another: how many of one key pass, and how many there are.
unfoldable pub passed : {Store : Type 0} → Redis Store → ℕ → String → List RateCheck → Store → ℕ
passed redis per_minute k [] s = 0
passed redis per_minute k (r ∷ rs) s =
    let outcome = enforce_rate_limit redis per_minute r s in
    let rest = passed redis per_minute k rs outcome.1 in
    if str_eq (rate_key r) k && is_passed outcome.0 then suc rest else rest

unfoldable pub asked : String → List RateCheck → ℕ
asked k [] = 0
asked k (r ∷ rs) = let rest = asked k rs in if str_eq (rate_key r) k then suc rest else rest
