-- ===== src/Shared/Action/Gives.antt =====
-- What every value that an action returns satisfies, whatever the state.
use dating_backend.Prelude.{◌≡◌, refl, Bool, true, false, if◌then◌else◌}
use dating_backend.Shared.Errors.{Failure}
use dating_backend.Shared.Action.{Action, Result, ok, err, pure, raise, raise_if, ◌>>=◌, ◌>>◌}
use dating_backend.Shared.Action.Keeps.{Yields}

pub record Gives {S A : Type 0} (R : A → Type 0) (m : Action S A) : Type 0 where
  pub at : (s : S) → Yields (λ a _. R a) (m s)

module _ {S A : Type 0} {R : A → Type 0} where
  pub Gives-pure : (a : A) → R a → Gives {S = S} R (pure a)
  Gives-pure a h = record { at = λ s. h }

  pub Gives-raise : (e : Failure) → Gives {S = S} R (raise e)
  Gives-raise e = record { at = λ s. tt }

  pub Gives-if :
      (on_true on_false : Action S A) (test : Bool)
      → (test ≡ true → Gives R on_true)
      → (test ≡ false → Gives R on_false)
      → Gives R (if test then on_true else on_false)
  Gives-if on_true on_false true yes_gives _ = yes_gives refl
  Gives-if on_true on_false false _ no_gives = no_gives refl

module _ {S A B : Type 0} {R : B → Type 0} where
  Gives-continue :
      (r : Result (A × S)) (f : A → Action S B)
      → ((a : A) → Gives R (f a))
      → Yields (λ b _. R b) (elim r [ ok (a, s') ↦ f a s' | err e ↦ err e ])
  Gives-continue (ok (a, s)) f k = (k a).at s
  Gives-continue (err e) f k = tt

  pub Gives-bind :
      (m : Action S A) (f : A → Action S B) → ((a : A) → Gives R (f a)) → Gives R (m >>= f)
  Gives-bind m f k = record { at = λ s. Gives-continue (m s) f k }

module _ {S B : Type 0} {R : B → Type 0} where
  -- Behind a guard the test is known to have failed.
  pub Gives-guard :
      (c : Bool) (e : Failure) (n : Action S B)
      → (c ≡ false → Gives R n)
      → Gives R (raise_if c e >> n)
  Gives-guard true e n k = record { at = λ s. tt }
  Gives-guard false e n k = k refl

pub ruleset gives_rules = (Gives-pure, Gives-raise, Gives-if, Gives-bind)
