-- ===== src/WordList/Highest.antt =====
-- The verdict on a text is the severest of the words found in it.
use dating_backend.Prelude.{
  ◌≡◌, refl, String, Bool, false, Option, none, some, [], ◌∷◌, sym, ◌&&◌, if◌then◌else◌, arith,
  Bool-cases, inl, inr, ◌∙◌, ap, true, not, ℕ,
}
use text.Mathlib.Text.{◌==◌ as str_eq}
use dating_backend.Shared.Errors.{app_error, validation_error}
use dating_backend.Shared.Action.{Result, ok, err, pure, raise_if, ◌>>◌, ◌>>=◌}
use dating_backend.Shared.Table.{Table, rows}
use dating_backend.Clubs.Service.{Verdict, pass, warn, review, block, is_blocked}
use dating_backend.WordList.{
  SensitiveWord, TextVerdict, rank, rank_of, or_review, raised, is_enabled, no_hit, is_hit, add_hit,
  with_hit, scan, check_text, count_hits, guard_text,
}

-- Of two verdicts, the severer one.
unfoldable pub severer : Verdict → Verdict → Verdict
severer pass b = b
severer warn pass = warn
severer warn b = b
severer review block = block
severer review _ = review
severer block _ = block

-- What a word asks for: a review, where it names no known action.
unfoldable pub asked_for : Option Verdict → Verdict
asked_for none = review
asked_for (some a) = a

-- What a check with that verdict answers: a blocking one fails where blocks are raised.
unfoldable pub verdict_answer : Bool → Verdict → Result Verdict
verdict_answer true block = err (app_error validation_error 400)
verdict_answer raise_on_block v = ok v

module _ (lower : String → String) (within : String → String → Bool) (content : String) where
  -- The severest of what the enabled words of the table ask for that are not empty and stand in the text.
  unfoldable pub severest : Table SensitiveWord → Verdict
  severest [] = pass
  severest ((_, w) ∷ t) =
      let rest = severest t in
      if w.enabled && not (str_eq w.word "") && within (lower w.word) content
      then severer (asked_for w.action) rest
      else rest

raised-severer : (v : Verdict) (a : Option Verdict) → raised v a ≡ severer v (asked_for a)
unfolding raised severer rank rank_of or_review asked_for
raised-severer pass none = refl
raised-severer pass (some pass) = refl
raised-severer pass (some warn) = refl
raised-severer pass (some review) = refl
raised-severer pass (some block) = refl
raised-severer warn none = refl
raised-severer warn (some pass) = refl
raised-severer warn (some warn) = refl
raised-severer warn (some review) = refl
raised-severer warn (some block) = refl
raised-severer review none = refl
raised-severer review (some pass) = refl
raised-severer review (some warn) = refl
raised-severer review (some review) = refl
raised-severer review (some block) = refl
raised-severer block none = refl
raised-severer block (some pass) = refl
raised-severer block (some warn) = refl
raised-severer block (some review) = refl
raised-severer block (some block) = refl

severer_assoc : (a b c : Verdict) → severer (severer a b) c ≡ severer a (severer b c)
unfolding severer
severer_assoc pass b c = refl
severer_assoc warn pass c = refl
severer_assoc warn warn pass = refl
severer_assoc warn warn warn = refl
severer_assoc warn warn review = refl
severer_assoc warn warn block = refl
severer_assoc warn review pass = refl
severer_assoc warn review warn = refl
severer_assoc warn review review = refl
severer_assoc warn review block = refl
severer_assoc warn block c = refl
severer_assoc review pass c = refl
severer_assoc review warn pass = refl
severer_assoc review warn warn = refl
severer_assoc review warn review = refl
severer_assoc review warn block = refl
severer_assoc review review pass = refl
severer_assoc review review warn = refl
severer_assoc review review review = refl
severer_assoc review review block = refl
severer_assoc review block c = refl
severer_assoc block b c = refl

pass_severer : (a : Verdict) → severer pass a ≡ a
unfolding severer
pass_severer pass = refl
pass_severer warn = refl
pass_severer review = refl
pass_severer block = refl

severer_pass : (a : Verdict) → severer a pass ≡ a
unfolding severer
severer_pass pass = refl
severer_pass warn = refl
severer_pass review = refl
severer_pass block = refl

module _ (lower : String → String) (within : String → String → Bool) (content : String) where
  with_hit-severer :
      (k : ℕ) (w : SensitiveWord) (t : Table SensitiveWord) (v : TextVerdict)
      → w.enabled ≡ true
      → severer (with_hit lower within content w v).action (severest lower within content t)
        ≡ severer v.action (severest lower within content ((k, w) ∷ t))
  unfolding with_hit severest add_hit is_hit
  with_hit-severer k w t v on = elim (Bool-cases (is_hit lower within content w)) [
    | inr clean ↦ ground (arith, clean, on)
    | inl hit ↦ ground (
      arith,
      hit,
      on,
      raised-severer v.action w.action,
      severer_assoc v.action (asked_for w.action) (severest lower within content t),
    )
  ]

  left_out :
      (k : ℕ) (w : SensitiveWord) (t : Table SensitiveWord) (v : TextVerdict)
      → w.enabled ≡ false
      → severer v.action (severest lower within content t)
        ≡ severer v.action (severest lower within content ((k, w) ∷ t))
  unfolding severest
  left_out k w t v off = ground (arith, off)

  enabled_first :
      (k : ℕ) (w : SensitiveWord) (t : Table SensitiveWord)
      → w.enabled ≡ true
      → rows is_enabled ((k, w) ∷ t) ≡ w ∷ rows is_enabled t
  unfolding rows is_enabled
  enabled_first k w t on = ground (arith, on)

  disabled_first :
      (k : ℕ) (w : SensitiveWord) (t : Table SensitiveWord)
      → w.enabled ≡ false
      → rows is_enabled ((k, w) ∷ t) ≡ rows is_enabled t
  unfolding rows is_enabled
  disabled_first k w t off = ground (arith, off)

  scan-severest :
      (t : Table SensitiveWord) (v : TextVerdict)
      → (scan lower within content (rows is_enabled t) v).action
        ≡ severer v.action (severest lower within content t)
  unfolding scan
  scan-severest [] v = unfold severest rows in sym (severer_pass v.action)
  scan-severest ((k, w) ∷ t) v = elim (Bool-cases w.enabled) [
    | inl on ↦
        ap (λ ws. (scan lower within content ws v).action) (enabled_first k w t on)
        ∙ scan-severest t (with_hit lower within content w v)
        ∙ with_hit-severer k w t v on
    | inr off ↦
        ap (λ ws. (scan lower within content ws v).action) (disabled_first k w t off)
        ∙ scan-severest t v
        ∙ left_out k w t v off
  ]

-- The verdict that a check answers, or its failure.
unfoldable pub verdict_of : Result (TextVerdict × Table SensitiveWord) → Result Verdict
verdict_of (ok (v, _)) = ok v.action
verdict_of (err e) = err e

answered_verdict :
    (v : TextVerdict) (t : Table SensitiveWord) (a : Verdict) (raise_on_block : Bool)
    → v.action ≡ a
    → verdict_of
        ((raise_if (is_blocked a && raise_on_block) (app_error validation_error 400) >> pure v) t)
      ≡ verdict_answer raise_on_block a
unfolding verdict_of verdict_answer is_blocked
answered_verdict v t pass true same = ap ok same
answered_verdict v t warn true same = ap ok same
answered_verdict v t review true same = ap ok same
answered_verdict v t block true same = refl
answered_verdict v t pass false same = ap ok same
answered_verdict v t warn false same = ap ok same
answered_verdict v t review false same = ap ok same
answered_verdict v t block false same = ap ok same

module _ (lower : String → String) (within : String → String → Bool) (content : String)
    (raise_on_block : Bool) (words : Table SensitiveWord) where
  checked :
      str_eq content "" ≡ false
      → check_text lower within content words
        ≡ ok (
          scan lower within content (rows is_enabled words) no_hit,
          count_hits lower within
              (scan lower within content (rows is_enabled words) no_hit).hit_ids
              words,
        )
  unfolding check_text
  checked filled = rw filled refl

  guarded_verdict :
      (v : TextVerdict) (t : Table SensitiveWord) (a : Verdict)
      → v.action ≡ a
      → verdict_of (
          (raise_if (is_blocked v.action && raise_on_block) (app_error validation_error 400)
              >> pure v)
            t)
        ≡ verdict_answer raise_on_block a
  guarded_verdict v t a same = rw (same, ◌>>=◌) (answered_verdict v t a raise_on_block same)

  -- The check of a text that is not empty answers the severest verdict that an enabled word found in it asks for,
  -- from `pass` over `warn` and `review` to `block`, and `pass` where none is found; a word of no known action
  -- asks for a review. But where that is to block, and
  -- the caller has blocks raised, it fails.
  pub guard_text-severest :
      str_eq content "" ≡ false
      → verdict_of (guard_text lower within content raise_on_block words)
        ≡ verdict_answer raise_on_block (severest lower within content words)
  unfolding guard_text
  guard_text-severest filled =
      let v = scan lower within content (rows is_enabled words) no_hit in
      let t = count_hits lower within v.hit_ids words in
      ap
        (λ r. verdict_of (
          ((λ _. r) >>= (λ x.
              raise_if (is_blocked x.action && raise_on_block) (app_error validation_error 400)
              >> pure x))
            words))
        (checked filled)
      ∙ guarded_verdict v t _ (scan-severest lower within content words no_hit ∙ pass_severer _)
