-- ===== src/WordList/Tests.antt =====
-- A concrete word list, on which the theorems apply.
use dating_backend.Prelude.{◌≡◌, refl, String, Bool, true, false, none, some, [], ◌∷◌}
use dating_backend.Shared.Table.{Table}
use dating_backend.Shared.Errors.{app_error, validation_error}
use dating_backend.Shared.Action.{err}
use text.Mathlib.Text.{◌==◌ as str_eq}
use dating_backend.Clubs.Service.{warn, block}
use dating_backend.WordList.{SensitiveWord, guard_text}
use dating_backend.WordList.Highest.{
  verdict_of, severest, severer, guard_text-severest, asked_for, verdict_answer,
}

abbrev listed : Table SensitiveWord
listed =
    (1, record { id = 1; word = "spam"; action = some warn; enabled = true; hit_count = 0 })
    ∷ (2, record { id = 2; word = "scam"; action = some block; enabled = true; hit_count = 3 })
    ∷ (3, record { id = 3; word = "odd"; action = none; enabled = false; hit_count = 0 })
    ∷ []

abbrev within : String → String → Bool
within word content = str_eq word content

guard_text-severest_example :
    verdict_of (guard_text (λ t. t) within "scam" true listed)
    ≡ err (app_error validation_error 400)
unfolding severest severer asked_for verdict_answer
guard_text-severest_example = guard_text-severest (λ t. t) within "scam" true listed refl
