-- ===== src/Orders/Tests.antt =====
-- A small store, what the effects do on it, and the theorems at it.
use agnostic_market.Base.{ℕ, ◌≡◌, ◌≤◌, refl, none, some, List, [], ◌∷◌}
use agnostic_market.Text.{
  Text, codes, text_eq, normalize, strip, upper, rstrip, lstrip, is_space, to_upper,
}
use agnostic_market.Dict.{Dict, lookup, insert, mem, add}
use agnostic_market.Effect.{ok}
use agnostic_market.Money.{of_cents, validate_usd}
use agnostic_market.Receipts.{committed, classify_receipt}
use agnostic_market.Text.Decimal.{reference}
use agnostic_market.Orders.Speech.{speak_lines}
use agnostic_market.Orders.Types.{
  Line, OrderEntry, PlacedOrder, RefundRecord, ReturnRecord, CancelRecord, OrderStore, empty_store,
  valid_placed, valid_refund, valid_return, valid_cancel,
}
use agnostic_market.Orders.Store.{
  order_status, captured_total, refunded_so_far, return_for_order, return_refund_due,
  order_item_summary, is_fulfilled, in_cancellable, is_cancelled, find_placed, refund_sum,
  find_return, return_sum,
}
use agnostic_market.Orders.Effects.{
  place_cart, issue_refund, create_return, cancel_order, placement_receipt, refund_receipt,
  return_receipt, cancel_receipt, new_placement, commit_placement, placed_order, new_refund,
  check_refund, refund_record, commit_refund, new_return, check_return, return_record,
  commit_return, new_cancel, check_cancel, commit_cancel, finish_cancel, refund_matches,
  return_matches, placement_matches, cancel_matches,
}
use agnostic_market.Orders.Solvent.{money_out, or_zero}
use agnostic_market.Orders.History.{Call, call, run}
use agnostic_market.Orders.Balance.{run-solvent}
use agnostic_market.Orders.Growth.{Extends, run-Extends}
use agnostic_market.Orders.Replay.{
  issue_refund-replay, create_return-replay, place_cart-replay, cancel_order-replay,
}

abbrev entry : Text → ℕ → OrderEntry
entry status total = record {
  status = status;
  summary = codes "rain jacket";
  eta = codes "2026-07-09";
  customer_ref = codes "CUST-001";
  total_usd = total;
  delivered_at = none;
}

abbrev pub fixture : Dict OrderEntry
fixture =
    (codes "ORD-1001", entry (codes "shipped") 5000)
    ∷ (codes "ORD-1002", entry (codes "processing") 3000)
    ∷ []

abbrev pub store : OrderStore
store = record {
  tenant_id = codes "shop";
  orders = fixture;
  placed_by_key = [];
  next_seq = 9001;
  refunds_by_key = [];
  next_refund_seq = 7001;
  cancels_by_key = [];
  cancelled_ids = [];
  returns_by_key = [];
  next_return_seq = 3001;
}

abbrev pub socks : List Line
socks = record { sku = codes "S1"; name = codes "sock"; price_usd = 400; quantity = 2 } ∷ []

-- A refund, a return that no longer fits, one that fits, and two cancellations.
abbrev calls : List Call
calls =
    Call.refund (codes "k1") (codes " ord-1001") (of_cents 2000) (codes "original") (codes "visa")
    ∷ Call.return_order (codes "k2") (codes "ORD-1001") (of_cents 3500) (codes "original")
    ∷ Call.return_order (codes "k3") (codes "ORD-1001") (of_cents 3000) (codes "original")
    ∷ Call.cancel (codes "k4") (codes "ord-1002 ")
    ∷ Call.cancel (codes "k5") (codes "ORD-1001")
    ∷ Call.place (codes "k6") socks (of_cents 800)
    ∷ []

program : Unit {0}
unfolding run place_cart issue_refund create_return cancel_order new_placement commit_placement
    placed_order new_refund check_refund refund_record commit_refund new_return check_return
    return_record commit_return new_cancel commit_cancel check_cancel order_status captured_total
    refunded_so_far return_for_order return_refund_due order_item_summary is_fulfilled
    in_cancellable is_cancelled find_placed refund_sum find_return return_sum validate_usd
    valid_placed valid_refund valid_return valid_cancel text_eq normalize strip lookup insert mem
    add money_out empty_store reference call classify_receipt refund_matches return_matches
    placement_matches cancel_matches speak_lines finish_cancel upper rstrip lstrip is_space to_upper
program = tt

run-calls :
    let s = run calls store in
    (refunded_so_far (codes "ORD-1001") s ≡ 2000)
    × (return_refund_due (codes "ORD-1001") s ≡ 3000)
    × (order_status (codes "ord-1002") s ≡ some (codes "cancelled"))
    × (order_status (codes "ORD-1001") s ≡ some (codes "shipped"))
    × (order_item_summary (codes "ORD-9001") s ≡ some (codes "2 socks"))
unfolding program
run-calls = (refl, refl, refl, refl, refl)

run-solvent_example :
    let s = run calls (empty_store (codes "shop") fixture) in
    money_out (codes "ORD-1001") s ≤ or_zero (captured_total (codes "ORD-1001") s)
run-solvent_example = run-solvent (codes "shop") fixture calls (codes "ORD-1001")

abbrev paid : RefundRecord
paid = record {
  refund_id = codes "R-7001";
  order_id = codes "ORD-1001";
  amount_usd = 2000;
  destination = codes "original";
  instrument_ref = codes "visa";
}

refund_returns :
    (issue_refund
      (codes "k")
      (codes "ord-1001")
      (of_cents 2000)
      (codes "original")
      (codes "visa")
      store).0
    ≡ ok paid
unfolding program
refund_returns = refl

issue_refund-replay_example :
    let t =
      run calls
        (issue_refund
          (codes "k")
          (codes "ord-1001")
          (of_cents 2000)
          (codes "original")
          (codes "visa")
          store).1 in
    (issue_refund (codes "k") (codes "ord-1001") (of_cents 2000) (codes "original") (codes "visa") t
      ≡ (ok paid, t))
    × (refund_receipt
          (codes "k")
          (codes "ord-1001")
          (of_cents 2000)
          (codes "original")
          (codes "visa")
          t
        ≡ (ok (committed paid), t))
issue_refund-replay_example =
    issue_refund-replay (codes "k") (codes "ord-1001") (of_cents 2000) (codes "original")
      (codes "visa") store paid calls refund_returns

abbrev opened : ReturnRecord
opened = record {
  rma_id = codes "RMA-3001";
  order_id = codes "ORD-1001";
  summary = codes "rain jacket";
  refund_due_usd = 100;
  destination = codes "original";
}

return_opens :
    (create_return (codes "k") (codes "ORD-1001") (of_cents 100) (codes "original") store).0
    ≡ ok opened
unfolding program
return_opens = refl

create_return-replay_example :
    let t =
      run calls
        (create_return (codes "k") (codes "ORD-1001") (of_cents 100) (codes "original") store).1 in
    (create_return (codes "k") (codes "ORD-1001") (of_cents 100) (codes "original") t
      ≡ (ok opened, t))
    × (return_receipt (codes "k") (codes "ORD-1001") (of_cents 100) (codes "original") t
        ≡ (ok (committed opened), t))
create_return-replay_example =
    create_return-replay (codes "k") (codes "ORD-1001") (of_cents 100) (codes "original") store
      opened calls return_opens

abbrev order : PlacedOrder
order = record { order_id = codes "ORD-9001"; total_usd = 800; lines = socks }

cart_places : (place_cart (codes "k") socks (of_cents 800) store).0 ≡ ok order
unfolding program
cart_places = refl

place_cart-replay_example :
    let t = run calls (place_cart (codes "k") socks (of_cents 800) store).1 in
    (place_cart (codes "k") socks (of_cents 800) t ≡ (ok order, t))
    × (placement_receipt (codes "k") socks (of_cents 800) t ≡ (ok (committed order), t))
place_cart-replay_example =
    place_cart-replay (codes "k") socks (of_cents 800) store order calls cart_places

abbrev void : CancelRecord
void = record { order_id = codes "ORD-1002"; summary = codes "rain jacket"; total_usd = 3000 }

order_voids : (cancel_order (codes "k") (codes "ORD-1002") store).0 ≡ ok void
unfolding program
order_voids = refl

cancel_order-replay_example :
    let t = run calls (cancel_order (codes "k") (codes "ORD-1002") store).1 in
    (cancel_order (codes "k") (codes "ORD-1002") t ≡ (ok void, t))
    × (cancel_receipt (codes "k") (codes "ORD-1002") t ≡ (ok (committed void), t))
cancel_order-replay_example =
    cancel_order-replay (codes "k") (codes "ORD-1002") store void calls order_voids

run-Extends_example : Extends store (run calls store)
run-Extends_example = run-Extends calls store
