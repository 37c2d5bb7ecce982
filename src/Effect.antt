-- ===== src/Effect.antt =====
-- A method of a mutable store that may raise. What was written before a raise stays written, so
-- that a refused call changes nothing is a theorem about each method.
pub mod Laws
use agnostic_market.Base.{Bool, true, false, Option, none, some}

-- The exceptions of the modelled modules. `validation` is pydantic's `ValidationError`.
pub data Error : Type 0 where
  validation value_error assertion : Error
  cart_mutation placement refund cancel return_order : Error
  contract challenge_conflict key_error index_error : Error

pub data Result {ℓ} (A : Type ℓ) : Type ℓ where
  ok : A → Result A
  err : Error → Result A

abbrev pub Action : Type 0 → Type 0 → Type 0
Action S A = S → Result A × S

module _ {S : Type 0} {A : Type 0} where
  abbrev pub pure : A → Action S A
  pure a s = (ok a, s)

  abbrev pub raise : Error → Action S A
  raise e s = (err e, s)

  abbrev pub gets : (S → A) → Action S A
  gets f s = (ok (f s), s)

  -- `if x is None: raise e`
  abbrev pub or_raise : Option A → Error → Action S A
  or_raise none e = raise e
  or_raise (some a) _ = pure a

abbrev pub modify : {S : Type 0} → (S → S) → Action S (Unit {0})
modify f s = (ok tt, f s)

abbrev pub raise_if : {S : Type 0} → Bool → Error → Action S (Unit {0})
raise_if true e = raise e
raise_if false e = pure tt

module _ {S A B : Type 0} where
  abbrev pub and_then : Result A → (A → Action S B) → Action S B
  and_then (ok a) f = f a
  and_then (err e) f = raise e

  infixl 5 ◌>>=◌ ◌>>◌
  abbrev pub ◌>>=◌ : Action S A → (A → Action S B) → Action S B
  ◌>>=◌ m f s = let (r, s') = m s in and_then r f s'

  abbrev pub ◌>>◌ : Action S A → Action S B → Action S B
  m >> k = m >>= λ _. k

-- The answer to a call whose idempotency key is already in the ledger.
abbrev pub replay : {S R : Type 0} → Bool → R → Error → Action S R
replay true r e = pure r
replay false r e = raise e
