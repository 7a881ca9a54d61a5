-- ===== src/WordList.antt =====
-- The local word list of app/modules/safety/content_safety.py. A text is already stripped and in lower case.
pub mod Highest
mod Tests
use dating_backend.Prelude.{
  ℕ, ◌+◌, String, Bool, true, false, Option, none, some, List, [], ◌∷◌, ◌++◌, ◌&&◌, not, ltb, ◌==◌,
  any, if◌then◌else◌,
}
use text.Mathlib.Text.{◌==◌ as str_eq}
use dating_backend.Shared.Errors.{app_error, validation_error}
use dating_backend.Shared.Action.{Action, pure, gets, modify, raise_if, ◌>>=◌, ◌>>◌}
use dating_backend.Shared.Table.{Table, rows}
use dating_backend.Clubs.Service.{Verdict, pass, warn, review, block, is_blocked}

-- A word's `action` is none where it names none of the four.
pub record SensitiveWord : Type 0 where
  pub id : ℕ
  pub word : String
  pub action : Option Verdict
  pub enabled : Bool
  pub hit_count : ℕ

-- `TextVerdict`, with the ids of the words that were found.
pub record TextVerdict : Type 0 where
  pub action : Verdict
  pub hits : List String
  pub hit_ids : List ℕ

-- `_RANK`
unfoldable pub rank : Verdict → ℕ
rank pass = 0
rank warn = 1
rank review = 2
rank block = 3

-- `_RANK.get(action, 2)`
unfoldable pub rank_of : Option Verdict → ℕ
unfolding rank
rank_of none = 2
rank_of (some a) = rank a

unfoldable pub or_review : Option Verdict → Verdict
or_review none = review
or_review (some a) = a

unfoldable pub raised : Verdict → Option Verdict → Verdict
unfolding rank rank_of or_review
raised v a = if ltb (rank v) (rank_of a) then or_review a else v

unfoldable pub is_enabled : SensitiveWord → Bool
is_enabled w = w.enabled

abbrev pub no_hit : TextVerdict
no_hit = record { action = pass; hits = []; hit_ids = [] }

-- Lower case, and whether a text stands within another.
module _ (lower : String → String) (within : String → String → Bool) where
  unfoldable pub is_hit : String → SensitiveWord → Bool
  is_hit content w = not (str_eq w.word "") && within (lower w.word) content

  unfoldable pub add_hit : SensitiveWord → TextVerdict → TextVerdict
  unfolding raised
  add_hit w v = record {
    action = raised v.action w.action;
    hits = v.hits ++ (w.word ∷ []);
    hit_ids = v.hit_ids ++ (w.id ∷ []);
  }

  unfoldable pub with_hit : String → SensitiveWord → TextVerdict → TextVerdict
  unfolding is_hit add_hit
  with_hit content w v = if is_hit content w then add_hit w v else v

  -- The loop over the enabled words.
  unfoldable pub scan : String → List SensitiveWord → TextVerdict → TextVerdict
  unfolding with_hit
  scan content [] v = v
  scan content (w ∷ ws) v = scan content ws (with_hit content w v)

  unfoldable pub counted_hit : List ℕ → SensitiveWord → SensitiveWord
  counted_hit ids w =
      if any (λ i. i == w.id) ids then record w { hit_count = w.hit_count + 1 } else w

  unfoldable pub count_hits : List ℕ → Table SensitiveWord → Table SensitiveWord
  unfolding counted_hit
  count_hits ids [] = []
  count_hits ids ((k, w) ∷ t) = (k, counted_hit ids w) ∷ count_hits ids t

  -- `check_text`
  unfoldable pub check_text : String → Action (Table SensitiveWord) TextVerdict
  unfolding scan count_hits is_enabled
  check_text content words =
      if str_eq content ""
      then pure no_hit words
      else (let v = scan content (rows is_enabled words) no_hit in
          pure v (count_hits v.hit_ids words))

  -- `guard_text`, of the texts joined.
  unfoldable pub guard_text : String → Bool → Action (Table SensitiveWord) TextVerdict
  unfolding check_text
  guard_text content raise_on_block = do
    v ← check_text content
    raise_if (is_blocked v.action && raise_on_block) (app_error validation_error 400)
    pure v
