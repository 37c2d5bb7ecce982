-- ===== src/Orders/Effects.antt =====
-- The effects of `OrderStore`: placement, refund, return and cancellation, each deduplicated by
-- its idempotency key, and the reads of their ledgers.
use agnostic_market.Base.{
  ℕ, ◌+◌, Bool, true, false, ◌&&◌, none, some, List, [], ◌∷◌, ltb, ◌==◌, null, not, is_some,
}
use agnostic_market.Text.{Text, text_eq, strip, normalize, codes}
use agnostic_market.Text.Decimal.{reference}
use agnostic_market.Dict.{lookup, insert, add}
use agnostic_market.Effect.{
  Action, ◌>>=◌, ◌>>◌, pure, gets, or_raise, raise_if, modify, replay, validation, assertion,
  placement, refund, cancel, return_order, index_error,
}
use agnostic_market.Money.{Cents, Decimal, validate_usd}
use agnostic_market.Receipts.{ReceiptLookup, classify_receipt}
use agnostic_market.Orders.Types.{
  Line, PlacedOrder, RefundRecord, CancelRecord, ReturnRecord, OrderStore, valid_placed,
  valid_refund, valid_cancel, valid_return,
}
use agnostic_market.Orders.Store.{
  order_status, captured_total, refunded_so_far, return_for_order, return_refund_due,
  order_item_summary, is_fulfilled, in_cancellable, is_cancelled,
}

-- One entry of `_line_fingerprint` against another.
unfoldable pub line_eq : Line → Line → Bool
line_eq a b =
    text_eq a.sku b.sku
    && text_eq a.name b.name
    && a.price_usd == b.price_usd
    && a.quantity == b.quantity

-- `_line_fingerprint(a) == _line_fingerprint(b)`
unfoldable pub lines_eq : List Line → List Line → Bool
unfolding line_eq
lines_eq [] [] = true
lines_eq (a ∷ rest) (b ∷ others) = line_eq a b && lines_eq rest others
lines_eq _ _ = false

unfoldable pub placement_matches : PlacedOrder → List Line → Cents → Bool
placement_matches r lines total = r.total_usd == total && lines_eq r.lines lines

unfoldable pub refund_matches : RefundRecord → Text → Cents → Text → Text → Bool
refund_matches r order_id amount destination instrument =
    text_eq r.order_id (normalize order_id)
    && r.amount_usd == amount
    && text_eq r.destination destination
    && text_eq r.instrument_ref (strip instrument)

unfoldable pub cancel_matches : CancelRecord → Text → Bool
cancel_matches r order_id = text_eq r.order_id (normalize order_id)

unfoldable pub return_matches : ReturnRecord → Text → Cents → Text → Bool
return_matches r order_id due destination =
    text_eq r.order_id (normalize order_id)
    && r.refund_due_usd == due
    && text_eq r.destination destination

unfoldable pub placed_order : ℕ → List Line → Cents → PlacedOrder
placed_order seq lines total = record {
  order_id = reference (codes "ORD-") seq;
  total_usd = total;
  lines = lines;
}

unfoldable pub commit_placement : Text → PlacedOrder → Action OrderStore PlacedOrder
commit_placement key placed = do
  raise_if (not (valid_placed placed)) validation
  modify (λ s. record s {
    next_seq = s.next_seq + 1;
    placed_by_key = insert key placed s.placed_by_key;
  })
  pure placed

-- The part of `place_cart` behind the ledger lookup.
unfoldable pub new_placement : Text → List Line → Cents → Action OrderStore PlacedOrder
new_placement key lines total = do
  seq ← gets (λ s. s.next_seq)
  commit_placement key (placed_order seq lines total)

unfoldable pub place_cart : Text → List Line → Decimal → Action OrderStore PlacedOrder
place_cart key lines total = do
  checked ← or_raise (validate_usd total) validation
  existing ← gets (λ s. lookup key s.placed_by_key)
  elim existing [
    | some r ↦ replay (placement_matches r lines checked) r placement
    | none ↦ new_placement key lines checked
  ]

unfoldable pub placement_receipt :
    Text → List Line → Decimal → Action OrderStore (ReceiptLookup PlacedOrder)
placement_receipt key lines total = do
  checked ← or_raise (validate_usd total) validation
  existing ← gets (λ s. lookup key s.placed_by_key)
  pure (classify_receipt existing (λ r. placement_matches r lines checked))

-- The guards of `issue_refund` behind the ledger lookup, in the order of the code.
unfoldable pub check_refund : Text → Cents → Text → Action OrderStore (Unit {0})
check_refund order_id amount instrument = do
  raise_if (null (strip instrument)) refund
  found ← gets (captured_total order_id)
  captured ← or_raise found refund
  status ← gets (order_status order_id)
  raise_if (is_cancelled status) refund
  already ← gets (refunded_so_far order_id)
  promised ← gets (return_refund_due order_id)
  raise_if (ltb captured (already + promised + amount)) refund

unfoldable pub refund_record : ℕ → Text → Cents → Text → Text → RefundRecord
refund_record seq order_id amount destination instrument = record {
  refund_id = reference (codes "R-") seq;
  order_id = normalize order_id;
  amount_usd = amount;
  destination = destination;
  instrument_ref = strip instrument;
}

unfoldable pub commit_refund : Text → RefundRecord → Action OrderStore RefundRecord
commit_refund key r = do
  raise_if (not (valid_refund r)) validation
  modify (λ s. record s {
    next_refund_seq = s.next_refund_seq + 1;
    refunds_by_key = insert key r s.refunds_by_key;
  })
  pure r

-- The part of `issue_refund` behind the ledger lookup.
unfoldable pub new_refund : Text → Text → Cents → Text → Text → Action OrderStore RefundRecord
new_refund key order_id amount destination instrument = do
  check_refund order_id amount instrument
  seq ← gets (λ s. s.next_refund_seq)
  commit_refund key (refund_record seq order_id amount destination instrument)

unfoldable pub issue_refund : Text → Text → Decimal → Text → Text → Action OrderStore RefundRecord
issue_refund key order_id amount destination instrument = do
  checked ← or_raise (validate_usd amount) validation
  existing ← gets (λ s. lookup key s.refunds_by_key)
  elim existing [
    | some r ↦ replay (refund_matches r order_id checked destination instrument) r refund
    | none ↦ new_refund key order_id checked destination instrument
  ]

unfoldable pub refund_receipt :
    Text → Text → Decimal → Text → Text → Action OrderStore (ReceiptLookup RefundRecord)
refund_receipt key order_id amount destination instrument = do
  checked ← or_raise (validate_usd amount) validation
  existing ← gets (λ s. lookup key s.refunds_by_key)
  pure (classify_receipt existing (λ r. refund_matches r order_id checked destination instrument))

-- The guards of `create_return` behind the ledger lookup, on the canonical id.
unfoldable pub check_return : Text → Cents → Action OrderStore (Unit {0})
check_return id due = do
  found ← gets (order_status id)
  status ← or_raise found return_order
  raise_if (not (is_fulfilled status)) return_order
  open_return ← gets (return_for_order id)
  raise_if (is_some open_return) return_order
  total ← gets (captured_total id)
  captured ← or_raise total assertion
  already ← gets (refunded_so_far id)
  raise_if (ltb captured (already + due)) return_order

unfoldable pub return_record : ℕ → Text → Text → Cents → Text → ReturnRecord
return_record seq id summary due destination = record {
  rma_id = reference (codes "RMA-") seq;
  order_id = id;
  summary = summary;
  refund_due_usd = due;
  destination = destination;
}

unfoldable pub commit_return : Text → ReturnRecord → Action OrderStore ReturnRecord
commit_return key r = do
  raise_if (not (valid_return r)) validation
  modify (λ s. record s {
    next_return_seq = s.next_return_seq + 1;
    returns_by_key = insert key r s.returns_by_key;
  })
  pure r

-- The part of `create_return` behind the ledger lookup.
unfoldable pub new_return : Text → Text → Cents → Text → Action OrderStore ReturnRecord
new_return key order_id due destination = do
  let id = normalize order_id
  check_return id due
  spoken ← gets (order_item_summary id)
  summary ← or_raise spoken index_error
  seq ← gets (λ s. s.next_return_seq)
  commit_return key (return_record seq id summary due destination)

unfoldable pub create_return : Text → Text → Decimal → Text → Action OrderStore ReturnRecord
create_return key order_id due destination = do
  checked ← or_raise (validate_usd due) validation
  existing ← gets (λ s. lookup key s.returns_by_key)
  elim existing [
    | some r ↦ replay (return_matches r order_id checked destination) r return_order
    | none ↦ new_return key order_id checked destination
  ]

unfoldable pub return_receipt :
    Text → Text → Decimal → Text → Action OrderStore (ReceiptLookup ReturnRecord)
return_receipt key order_id due destination = do
  checked ← or_raise (validate_usd due) validation
  existing ← gets (λ s. lookup key s.returns_by_key)
  pure (classify_receipt existing (λ r. return_matches r order_id checked destination))

-- The guards of `cancel_order` behind the ledger lookup, on the canonical id: the captured total.
unfoldable pub check_cancel : Text → Action OrderStore Cents
check_cancel id = do
  found ← gets (order_status id)
  status ← or_raise found cancel
  raise_if (not (in_cancellable (some status))) cancel
  already ← gets (refunded_so_far id)
  raise_if (ltb 0 already) cancel
  total ← gets (captured_total id)
  or_raise total assertion

-- The id is added to the set of voided orders before the record is built.
unfoldable pub commit_cancel : Text → CancelRecord → Action OrderStore CancelRecord
commit_cancel key r = do
  modify (λ s. record s { cancelled_ids = add r.order_id s.cancelled_ids })
  raise_if (not (valid_cancel r)) validation
  modify (λ s. record s { cancels_by_key = insert key r s.cancels_by_key })
  pure r

-- The rest of `new_cancel` behind its guards.
unfoldable pub finish_cancel : Text → Text → Cents → Action OrderStore CancelRecord
finish_cancel key id captured = do
  spoken ← gets (order_item_summary id)
  summary ← or_raise spoken index_error
  commit_cancel key (record { order_id = id; summary = summary; total_usd = captured })

-- The part of `cancel_order` behind the ledger lookup.
unfoldable pub new_cancel : Text → Text → Action OrderStore CancelRecord
unfolding finish_cancel
new_cancel key order_id = do
  captured ← check_cancel (normalize order_id)
  finish_cancel key (normalize order_id) captured

unfoldable pub cancel_order : Text → Text → Action OrderStore CancelRecord
cancel_order key order_id = do
  existing ← gets (λ s. lookup key s.cancels_by_key)
  elim existing [
    | some r ↦ replay (cancel_matches r order_id) r cancel
    | none ↦ new_cancel key order_id
  ]

unfoldable pub cancel_receipt : Text → Text → Action OrderStore (ReceiptLookup CancelRecord)
cancel_receipt key order_id = do
  existing ← gets (λ s. lookup key s.cancels_by_key)
  pure (classify_receipt existing (λ r. cancel_matches r order_id))
