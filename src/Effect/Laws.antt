-- ===== src/Effect/Laws.antt =====
-- What holds after a chain of calls, from what holds after each.
use agnostic_market.Base.{◌≡◌, refl, ◌⊎◌, inl, inr, Bool, true, false}
use agnostic_market.Effect.{Error, Result, ok, err, Action, ◌>>=◌, and_then, raise_if}

module _ {S A B : Type 0} (P : S → Type 0) where
  and_then-keeps :
      (answer : Result A) (k : A → Action S B) (s : S)
      → P s
      → ((a : A) → answer ≡ ok a → P (k a s).1)
      → P (and_then answer k s).1
  and_then-keeps (ok a) k s h f = f a refl
  and_then-keeps (err e) k s h f = h

  pub bind-keeps :
      (m : Action S A) (k : A → Action S B) (s : S)
      → P (m s).1
      → ((a : A) → (m s).0 ≡ ok a → P (k a (m s).1).1)
      → P ((m >>= k) s).1
  bind-keeps m k s h f = and_then-keeps (m s).0 k (m s).1 h f

-- The call after a guard runs only where the guard lets it.
pub raise_if-keeps :
    {S B : Type 0} (P : S → Type 0) (bad : Bool) (e : Error) (k : Unit {0} → Action S B) (s : S)
    → P s
    → (bad ≡ false → P (k tt s).1)
    → P ((raise_if bad e >>= k) s).1
raise_if-keeps P true e k s h f = h
raise_if-keeps P false e k s h f = f refl

pub Result-cases :
    {A : Type 0} (r : Result A) → ((e : Error) × (r ≡ err e)) ⊎ ((a : A) × (r ≡ ok a))
Result-cases (ok a) = inr (a, refl)
Result-cases (err e) = inl (e, refl)
