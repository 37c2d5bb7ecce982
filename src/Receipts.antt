-- ===== src/Receipts.antt =====
-- commerce/receipts.py: what a read of an idempotency ledger can say.
use agnostic_market.Base.{Bool, Option, none, some, if◌then◌else◌}

pub data IndeterminateReason : Type 0 where
  key_conflict pending unavailable : IndeterminateReason

pub data ReceiptLookup (R : Type 0) : Type 0 where
  committed : R → ReceiptLookup R
  not_committed : ReceiptLookup R
  indeterminate : IndeterminateReason → ReceiptLookup R

unfoldable pub classify_receipt : {R : Type 0} → Option R → (R → Bool) → ReceiptLookup R
classify_receipt none matches = not_committed
classify_receipt (some r) matches = if matches r then committed r else indeterminate key_conflict
