-- ===== src/Shared/Idempotency/Tests.antt =====
-- Concrete requests, on which the theorems apply.
use dating_backend.Prelude.{ℕ, ◌≡◌, refl, some, [], arith}
use dating_backend.Shared.Action.{err, ◌>>◌, ◌>>=◌}
use dating_backend.Shared.Errors.{app_error, idempotency_conflict}
use dating_backend.Shared.Idempotency.{Records, begin, find_record}
use dating_backend.Shared.Idempotency.Replay.{completed_answers, finish}

abbrev no_records : Records ℕ
no_records = []

completed_answers_example :
    ((begin 60 100 "pay" "k" (some 7) "h" >>= finish 200)
        >> begin 60 120 "pay" "k" (some 7) "other")
      no_records
    ≡ err (app_error idempotency_conflict 409)
unfolding find_record
completed_answers_example =
    completed_answers 60 100 "pay" "k" (some 7) "h" 60 120 "other" 200 no_records refl
      (ground arith)
