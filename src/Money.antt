-- ===== src/Money.antt =====
-- dtos/money.py: exact amounts in US dollars. A checked amount is a number of cents.
use agnostic_market.Base.{
  ℕ, ◌-◌, ◌*◌, ◌/◌, ◌%◌, Bool, false, ◌&&◌, Option, none, some, leb, ◌==◌, if◌then◌else◌,
}
use Prim.Native.Nat.{◌^◌}

-- Python's `Decimal`: sign, coefficient and number of decimal places (an exponent above zero is
-- written out in the coefficient), or a NaN or an infinity.
pub data Decimal : Type 0 where
  finite : (negative : Bool) (coefficient places : ℕ) → Decimal
  not_finite : Decimal

abbrev pub Cents : Type 0
Cents = ℕ

-- `UsdAmount`: finite, at least zero, and a whole number of cents.
unfoldable pub validate_usd : Decimal → Option Cents
validate_usd not_finite = none
validate_usd (finite negative coefficient places) =
    if negative && leb 1 coefficient
    then none
    else if leb places 2
    then some (coefficient * 10 ^ (2 - places))
    else if coefficient % 10 ^ (places - 2) == 0
    then some (coefficient / 10 ^ (places - 2))
    else none

-- A number of cents, as the store hands it on.
abbrev pub of_cents : Cents → Decimal
of_cents c = finite false c 2
