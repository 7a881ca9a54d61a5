-- ===== src/Shared/RateLimit/Tests.antt =====
-- Counters in a function, on which the theorem applies.
use dating_backend.Prelude.{
  ℕ, suc, ◌≡◌, refl, arith, String, none, some, List, [], ◌∷◌, if◌then◌else◌, min,
}
use dating_backend.Shared.RateLimit.{
  Redis, RedisLaws, RateCheck, passed, asked, max_hits, window, enforce_rate_limit, rate_key,
  user_key, start_window,
}
use dating_backend.Shared.RateLimit.Burst.{passed_to_limit}
use text.Mathlib.Text.{◌==◌ as str_eq}

abbrev counters : Redis (String → ℕ)
counters = record {
  incr = λ k s. (suc (s k), λ j. if str_eq k j then suc (s j) else s j);
  expire = λ k time s. s;
  count = λ k s. s k;
}

counters_lem : RedisLaws counters
counters_lem = record {
  incr_value = λ k s. refl;
  incr_count = λ k j s. refl;
  expire_count = λ k j time s h. refl;
}

abbrev check : String → RateCheck
check host = record {
  client = some host;
  rate_limit_user = none;
  bucket = "analytics_ip";
  limit = some 2;
  window_seconds = some 60;
}

abbrev checks : List RateCheck
checks = check "a" ∷ check "a" ∷ check "b" ∷ check "a" ∷ []

passed_to_limit_example :
    passed counters 300 "rl:analytics_ip:a" checks (λ _. 0)
    ≡ min 2 (asked "rl:analytics_ip:a" checks)
unfolding max_hits window
passed_to_limit_example =
    passed_to_limit counters counters_lem 300 "rl:analytics_ip:a" 2 checks (λ _. 0) (ground arith)
      (
        (λ _. refl, ground arith),
        ((λ _. refl, ground arith), ((λ _. refl, ground arith), ((λ _. refl, ground arith), tt))),
      )
      refl

passed-checks : passed counters 300 "rl:analytics_ip:a" checks (λ _. 0) ≡ 2
unfolding passed enforce_rate_limit rate_key user_key max_hits window start_window
passed-checks = refl
