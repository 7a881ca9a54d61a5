-- ===== src/Shared/Action.antt =====
-- A handler's work in one database session. A handler that raises never reaches its `commit`, and
-- closing the session rolls the transaction back, so an error carries no state.
pub mod Keeps
pub mod Gives
use dating_backend.Prelude.{Bool, true, false, Option, none, some, if◌then◌else◌}
use dating_backend.Shared.Errors.{Failure}

pub data Result (A : Type 0) : Type 0 where
  ok : A → Result A
  err : Failure → Result A

abbrev pub Action : Type 0 → Type 0 → Type 0
Action S A = S → Result (A × S)

module _ {S A : Type 0} where
  abbrev pub pure : A → Action S A
  pure a s = ok (a, s)

  abbrev pub raise : Failure → Action S A
  raise e s = err e

  abbrev pub gets : (S → A) → Action S A
  gets f s = ok (f s, s)

  -- `if row is None: raise ...`
  abbrev pub or_raise : Option A → Failure → Action S A
  or_raise none e = raise e
  or_raise (some a) _ = pure a

infixr 5 ◌>>=◌ ◌>>◌
abbrev pub ◌>>=◌ : {S A B : Type 0} → Action S A → (A → Action S B) → Action S B
◌>>=◌ m f s = elim (m s) [ ok (a, s') ↦ f a s' | err e ↦ err e ]

abbrev pub ◌>>◌ : {S A B : Type 0} → Action S A → Action S B → Action S B
m >> k = m >>= λ _. k

module _ {S : Type 0} where
  abbrev pub modify : (S → S) → Action S (Unit {0})
  modify f s = ok (tt, f s)

  -- `if c: raise e`
  abbrev pub raise_if : Bool → Failure → Action S (Unit {0})
  raise_if c e = if c then raise e else pure tt

-- An action on a part of the state.
abbrev pub on_part : {S T A : Type 0} → (S → T) → (T → S → S) → Action T A → Action S A
on_part get put m s = elim (m (get s)) [ ok (a, t) ↦ ok (a, put t s) | err e ↦ err e ]

-- The rows after a handler that commits on success.
unfoldable pub committed : {S A : Type 0} → Result (A × S) → S → S
committed (ok (_, s')) s = s'
committed (err _) s = s
