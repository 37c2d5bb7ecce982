-- ===== src/Base/Int.antt =====
-- Python's signed integers over the native numbers, as far as the code compares them.
use Prim.Native.Nat.{ℕ}
use mathlib.Core.Option.{Option, none, some}

-- `negsuc n` is -(n + 1).
pub data ℤ : Type 0 where
  pos : ℕ → ℤ
  negsuc : ℕ → ℤ

-- The natural number that an integer is, if it is not negative.
abbrev pub to_nat : ℤ → Option ℕ
to_nat (pos n) = some n
to_nat (negsuc _) = none
