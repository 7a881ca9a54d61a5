-- ===== src/Shared/Action/Keeps.antt =====
-- Invariants of actions: one rule for each way to build an action.
use dating_backend.Prelude.{◌≡◌, refl, Bool, true, false, Option, none, some, if◌then◌else◌}
use dating_backend.Shared.Errors.{Failure}
use dating_backend.Shared.Action.{
  Action, Result, ok, err, pure, raise, gets, or_raise, modify, raise_if, on_part, ◌>>=◌, ◌>>◌,
  committed,
}

module _ {S A : Type 0} where
  -- What holds of the value and the state that a result commits, if it commits one.
  abbrev pub Yields : (A → S → Type 0) → Result (A × S) → Type 0
  Yields Q (ok (a, s)) = Q a s
  Yields Q (err _) = Unit

  abbrev pub Commits : (S → Type 0) → Result (A × S) → Type 0
  Commits P r = Yields (λ _. P) r

module _ {S A : Type 0} where
  -- Total correctness: the action commits, and this holds of what it commits.
  abbrev pub Returns : (A → S → Type 0) → Result (A × S) → Type 0
  Returns Q (ok (a, s)) = Q a s
  Returns Q (err _) = ⊥

module _ {S A : Type 0} (P : S → Type 0) where
  pub committed_of_commits : (r : Result (A × S)) (s : S) → Commits P r → P s → P (committed r s)
  unfolding committed
  committed_of_commits (ok (_, s')) s c h = c
  committed_of_commits (err _) s c h = h

module _ {S A : Type 0} where
  pub Yields-map :
      (Q R : A → S → Type 0) (r : Result (A × S))
      → ((a : A) (s : S) → Q a s → R a s)
      → Yields Q r
      → Yields R r
  Yields-map Q R (ok (a, s)) k h = k a s h
  Yields-map Q R (err e) k h = tt

  -- What an action returns, and what it yields, hold together.
  pub Returns-and :
      (Q R : A → S → Type 0) (r : Result (A × S))
      → Returns Q r
      → Yields R r
      → Returns (λ a s. Q a s × R a s) r
  Returns-and Q R (ok (a, s)) h k = (h, k)
  Returns-and Q R (err e) h k = absurd h

  pub Returns-map :
      (Q R : A → S → Type 0) (r : Result (A × S))
      → ((a : A) (s : S) → Q a s → R a s)
      → Returns Q r
      → Returns R r
  Returns-map Q R (ok (a, s)) k h = k a s h
  Returns-map Q R (err e) k h = absurd h

pub record Keeps {S A : Type 0} (P : S → Type 0) (m : Action S A) : Type 0 where
  pub at : (s : S) → P s → Commits P (m s)

module _ {S A : Type 0} {P : S → Type 0} where
  pub Keeps-pure : (a : A) → Keeps P (pure a)
  Keeps-pure a = record { at = λ s h. h }

  pub Keeps-raise : (e : Failure) → Keeps P (raise {A = A} e)
  Keeps-raise e = record { at = λ s h. tt }

  pub Keeps-gets : (f : S → A) → Keeps P (gets f)
  Keeps-gets f = record { at = λ s h. h }

  pub Keeps-or_raise : (o : Option A) (e : Failure) → Keeps P (or_raise o e)
  Keeps-or_raise none e = record { at = λ s h. tt }
  Keeps-or_raise (some a) e = record { at = λ s h. h }

  -- A test runs one of two actions, each under what the test found.
  pub Keeps-if :
      (on_true on_false : Action S A) (test : Bool)
      → (test ≡ true → Keeps P on_true)
      → (test ≡ false → Keeps P on_false)
      → Keeps P (if test then on_true else on_false)
  Keeps-if on_true on_false true yes_keeps _ = yes_keeps refl
  Keeps-if on_true on_false false _ no_keeps = no_keeps refl

module _ {S : Type 0} {P : S → Type 0} where
  pub Keeps-modify : (f : S → S) → ((s : S) → P s → P (f s)) → Keeps P (modify f)
  Keeps-modify f k = record { at = k }

  pub Keeps-raise_if : (c : Bool) (e : Failure) → Keeps P (raise_if c e)
  Keeps-raise_if true e = record { at = λ s h. tt }
  Keeps-raise_if false e = record { at = λ s h. h }

module _ {S A B : Type 0} {P : S → Type 0} where
  continue :
      (r : Result (A × S)) (f : A → Action S B)
      → Commits P r
      → ((a : A) → Keeps P (f a))
      → Commits P (elim r [ ok (a, s') ↦ f a s' | err e ↦ err e ])
  continue (ok (a, s)) f h kf = (kf a).at s h
  continue (err e) f h kf = tt

  pub Keeps-bind :
      (m : Action S A) (f : A → Action S B)
      → Keeps P m
      → ((a : A) → Keeps P (f a))
      → Keeps P (m >>= f)
  Keeps-bind m f km kf = record { at = λ s h. continue (m s) f (km.at s h) kf }

module _ {S A B : Type 0} where
  Yields-continue :
      (Q : A → S → Type 0) (R : B → S → Type 0) (r : Result (A × S)) (f : A → Action S B)
      → Yields Q r
      → ((a : A) (s : S) → Q a s → Yields R (f a s))
      → Yields R (elim r [ ok (a, s') ↦ f a s' | err e ↦ err e ])
  Yields-continue Q R (ok (a, s)) f h k = k a s h
  Yields-continue Q R (err e) f h k = tt

  Returns-continue :
      (Q : A → S → Type 0) (R : B → S → Type 0) (r : Result (A × S)) (f : A → Action S B)
      → Returns Q r
      → ((a : A) (s : S) → Q a s → Returns R (f a s))
      → Returns R (elim r [ ok (a, s') ↦ f a s' | err e ↦ err e ])
  Returns-continue Q R (ok (a, s)) f h k = k a s h
  Returns-continue Q R (err e) f h k = absurd h

  pub Returns-bind :
      (Q : A → S → Type 0) (R : B → S → Type 0) (m : Action S A) (f : A → Action S B) (s : S)
      → Returns Q (m s)
      → ((a : A) (s' : S) → Q a s' → Returns R (f a s'))
      → Returns R ((m >>= f) s)
  Returns-bind Q R m f s h k = Returns-continue Q R (m s) f h k

  -- The rule for a bind whose rest relies on what the first part returned.
  pub Yields-bind :
      (Q : A → S → Type 0) (R : B → S → Type 0) (m : Action S A) (f : A → Action S B) (s : S)
      → Yields Q (m s)
      → ((a : A) (s' : S) → Q a s' → Yields R (f a s'))
      → Yields R ((m >>= f) s)
  Yields-bind Q R m f s h k = Yields-continue Q R (m s) f h k

module _ {S B : Type 0} where
  -- A guard in front of an action.
  pub Yields-guard :
      (R : B → S → Type 0) (c : Bool) (e : Failure) (n : Action S B) (s : S)
      → (c ≡ false → Yields R (n s))
      → Yields R ((raise_if c e >> n) s)
  Yields-guard R true e n s k = tt
  Yields-guard R false e n s k = k refl

module _ {S A B : Type 0} where
  -- A row that must exist.
  pub Yields-or_raise :
      (R : B → S → Type 0) (found : Option A) (e : Failure) (f : A → Action S B) (s : S)
      → ((a : A) → found ≡ some a → Yields R (f a s))
      → Yields R ((or_raise found e >>= f) s)
  Yields-or_raise R none e f s k = tt
  Yields-or_raise R (some a) e f s k = k a refl

module _ {S A : Type 0} where
  -- What is returned in every case is what may be returned.
  pub Yields-of-Returns : (R : A → S → Type 0) (r : Result (A × S)) → Returns R r → Yields R r
  Yields-of-Returns R (ok (a, s)) h = h
  Yields-of-Returns R (err e) h = absurd h

module _ {S B : Type 0} where
  -- A guard that lets an action pass.
  pub Returns-guard :
      (R : B → S → Type 0) (c : Bool) (e : Failure) (n : Action S B) (s : S)
      → c ≡ false
      → Returns R (n s)
      → Returns R ((raise_if c e >> n) s)
  Returns-guard R false e n s open_way h = h
  Returns-guard R true e n s open_way h = cc

module _ {S T A : Type 0} (P : S → Type 0) (Q : T → Type 0) where
  lift_part :
      (put : T → S → S) (s : S) (r : Result (A × T))
      → Commits Q r
      → ((t : T) → Q t → P (put t s))
      → Commits P (elim r [ ok (a, t) ↦ ok (a, put t s) | err e ↦ err e ])
  lift_part put s (ok (a, t)) h k = k t h
  lift_part put s (err e) h k = tt

  -- An invariant of a part of the state lifts to the state.
  pub Keeps-on_part :
      (get : S → T) (put : T → S → S) (m : Action T A)
      → Keeps Q m
      → ((s : S) → P s → Q (get s))
      → ((s : S) (t : T) → P s → Q t → P (put t s))
      → Keeps P (on_part get put m)
  Keeps-on_part get put m km down up = record {
    at = λ s h. lift_part put s (m (get s)) (km.at (get s) (down s h)) (λ t q. up s t h q);
  }

module _ {S T A : Type 0} (Q : A → T → Type 0) (R : A → S → Type 0) where
  part_case :
      (put : T → S → S) (s : S) (r : Result (A × T))
      → Yields Q r
      → ((a : A) (t : T) → Q a t → R a (put t s))
      → Yields R (elim r [ ok (a, t) ↦ ok (a, put t s) | err e ↦ err e ])
  part_case put s (ok (a, t)) h k = k a t h
  part_case put s (err e) h k = tt

  -- What an action on a part of the state yields, said of the whole state.
  pub Yields-part :
      (get : S → T) (put : T → S → S) (m : Action T A) (s : S)
      → Yields Q (m (get s))
      → ((a : A) (t : T) → Q a t → R a (put t s))
      → Yields R (on_part get put m s)
  Yields-part get put m s h k = part_case put s (m (get s)) h k

pub ruleset keeps_rules =
    (Keeps-pure, Keeps-raise, Keeps-gets, Keeps-or_raise, Keeps-raise_if, Keeps-if, Keeps-bind)
