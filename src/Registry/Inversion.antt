-- ===== src/Registry/Inversion.antt =====
-- What a chain of statements that returned has passed through.
use agnostic_market.Base.{◌≡◌, refl, inl, inr, Bool, true, false, Option, none, some, arith}
use agnostic_market.Registry.Types.{Fault}
use agnostic_market.Registry.Database.{
  Database, Outcome, ok, err, Transaction, ◌>>=◌, ◌>>◌, gets, raise_if, from_outcome, or_raise,
}
use agnostic_market.Registry.Admission.{in_transaction}
use agnostic_market.Registry.Rows.{Outcome-cases}

module _ {B : Type 0} (b : B) (db db'' : Database) where
  pub >>=-ok :
      {A : Type 0} (m : Transaction A) (f : A → Transaction B)
      → (m >>= f) db ≡ ok (b, db'')
      → (a : A) × (db' : Database) × (m db ≡ ok (a, db')) × (f a db' ≡ ok (b, db''))
  unfolding ◌>>=◌
  >>=-ok m f answer = elim (Outcome-cases (m db)) [
    | inl (e, failed) ↦ ground (arith, answer, failed)
    | inr ((a, db'), passed) ↦ (a, db', passed, ground (arith, answer, passed))
  ]

  pub raise_if-ok :
      (bad : Bool) (e : Fault) (f : Transaction B)
      → (raise_if bad e >> f) db ≡ ok (b, db'')
      → (bad ≡ false) × (f db ≡ ok (b, db''))
  unfolding ◌>>=◌ raise_if
  raise_if-ok true e f answer = cc
  raise_if-ok false e f answer = (refl, answer)

  pub from_outcome-ok :
      {A : Type 0} (o : Outcome A) (f : A → Transaction B)
      → (from_outcome o >>= f) db ≡ ok (b, db'')
      → (a : A) × (o ≡ ok a) × (f a db ≡ ok (b, db''))
  unfolding ◌>>=◌ from_outcome
  from_outcome-ok (ok a) f answer = (a, refl, answer)
  from_outcome-ok (err e) f answer = cc

  pub or_raise-ok :
      {A : Type 0} (o : Option A) (e : Fault) (f : A → Transaction B)
      → (or_raise o e >>= f) db ≡ ok (b, db'')
      → (a : A) × (o ≡ some a) × (f a db ≡ ok (b, db''))
  unfolding ◌>>=◌ or_raise
  or_raise-ok (some a) e f answer = (a, refl, answer)
  or_raise-ok none e f answer = cc

  pub gets-ok :
      {A : Type 0} (g : Database → A) (f : A → Transaction B)
      → (gets g >>= f) db ≡ ok (b, db'')
      → f (g db) db ≡ ok (b, db'')
  unfolding ◌>>=◌ gets
  gets-ok g f answer = answer

  pub in_transaction-ok :
      (fault : Fault → Fault) (t : Transaction B)
      → in_transaction fault t db ≡ (ok b, db'')
      → t db ≡ ok (b, db'')
  unfolding in_transaction
  in_transaction-ok fault t answer = elim (Outcome-cases (t db)) [
    | inl (e, failed) ↦ ground (arith, answer, failed)
    | inr ((a, db'), passed) ↦ ground (arith, answer, passed)
  ]

pub outcome-ok :
    {A : Type 0} (o : Outcome A) (a : A) (db db' : Database)
    → from_outcome o db ≡ ok (a, db')
    → (o ≡ ok a) × (db' ≡ db)
unfolding from_outcome
outcome-ok (ok b) a db db' answer = (ground (arith, answer), ground (arith, answer))
outcome-ok (err e) a db db' answer = cc
