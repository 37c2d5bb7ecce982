-- ===== src/Orders/Store.antt =====
-- The reads of `OrderStore` on which its effects depend. Each takes the id as the caller wrote it.
use agnostic_market.Base.{
  ℕ, ◌+◌, Bool, false, ◌||◌, Option, none, some, List, [], ◌∷◌, if◌then◌else◌, length,
}
use agnostic_market.Text.{Text, text_eq, normalize, codes}
use agnostic_market.Dict.{lookup, mem, values}
use agnostic_market.Money.{Cents}
use agnostic_market.Orders.Types.{
  PlacedOrder, RefundRecord, ReturnRecord, OrderStore, processing, cancelled, shipped, delivered,
}
use agnostic_market.Orders.Speech.{speak_lines}

-- The loop over `_placed_by_key.values()` for the order of one id.
unfoldable pub find_placed : Text → List PlacedOrder → Option PlacedOrder
find_placed id [] = none
find_placed id (p ∷ ps) = if text_eq p.order_id id then some p else find_placed id ps

-- `order_status` behind the canonical form of the id.
unfoldable pub status_at : Text → OrderStore → Option Text
status_at id s = if mem id s.cancelled_ids then some cancelled else elim (lookup id s.orders) [
  | some entry ↦ some entry.status
  | none ↦ elim (find_placed id (values s.placed_by_key)) [ some _ ↦ some processing | none ↦ none ]
]

unfoldable pub order_status : Text → OrderStore → Option Text
unfolding status_at
order_status order_id s = status_at (normalize order_id) s

unfoldable pub order_owner : Text → OrderStore → Option Text
order_owner order_id s = elim (lookup (normalize order_id) s.orders) [
  | some entry ↦ some entry.customer_ref
  | none ↦ none
]

unfoldable pub order_eta : Text → OrderStore → Option Text
order_eta order_id s =
    let id = normalize order_id in
    elim (lookup id s.orders) [
      | some entry ↦ some entry.eta
      | none ↦ elim (find_placed id (values s.placed_by_key)) [
        | some _ ↦ some (codes "3-5 business days")
        | none ↦ none
      ]
    ]

-- `captured_total` behind the canonical form of the id.
unfoldable pub captured_at : Text → OrderStore → Option Cents
captured_at id s = elim (lookup id s.orders) [
  | some entry ↦ some entry.total_usd
  | none ↦ elim (find_placed id (values s.placed_by_key)) [
    | some placed ↦ some placed.total_usd
    | none ↦ none
  ]
]

unfoldable pub captured_total : Text → OrderStore → Option Cents
unfolding captured_at
captured_total order_id s = captured_at (normalize order_id) s

-- The sum over the refunds of one order.
unfoldable pub refund_sum : Text → List RefundRecord → Cents
refund_sum id [] = 0
refund_sum id (r ∷ rs) = (if text_eq r.order_id id then r.amount_usd else 0) + refund_sum id rs

unfoldable pub refunded_so_far : Text → OrderStore → Cents
refunded_so_far order_id s = refund_sum (normalize order_id) (values s.refunds_by_key)

-- The first return of one order.
unfoldable pub find_return : Text → List ReturnRecord → Option ReturnRecord
find_return id [] = none
find_return id (r ∷ rs) = if text_eq r.order_id id then some r else find_return id rs

unfoldable pub return_for_order : Text → OrderStore → Option ReturnRecord
return_for_order order_id s = find_return (normalize order_id) (values s.returns_by_key)

-- The sum over the returns of one order.
unfoldable pub return_sum : Text → List ReturnRecord → Cents
return_sum id [] = 0
return_sum id (r ∷ rs) = (if text_eq r.order_id id then r.refund_due_usd else 0) + return_sum id rs

unfoldable pub return_refund_due : Text → OrderStore → Cents
return_refund_due order_id s = return_sum (normalize order_id) (values s.returns_by_key)

-- `none` is the IndexError that `speak_lines` raises on an order without lines.
unfoldable pub order_item_summary : Text → OrderStore → Option Text
order_item_summary order_id s =
    let id = normalize order_id in
    elim (lookup id s.orders) [
      | some entry ↦ some entry.summary
      | none ↦ elim (find_placed id (values s.placed_by_key)) [
        | some placed ↦ speak_lines placed.lines
        | none ↦ some id
      ]
    ]

-- `status in FULFILLED_STATUSES`
unfoldable pub is_fulfilled : Text → Bool
is_fulfilled status = text_eq status shipped || text_eq status delivered

-- `status in _CANCELLABLE_STATUSES`, at a status or None
unfoldable pub in_cancellable : Option Text → Bool
in_cancellable none = false
in_cancellable (some status) = text_eq status processing

unfoldable pub is_cancellable : Text → OrderStore → Bool
is_cancellable order_id s = in_cancellable (order_status order_id s)

-- `status == CANCELLED_STATUS`, at a status or None
unfoldable pub is_cancelled : Option Text → Bool
is_cancelled none = false
is_cancelled (some status) = text_eq status cancelled

-- `datetime.fromisoformat(...).timestamp()` is the argument `timestamp`.
unfoldable pub delivered_at_epoch : (Text → ℕ) → Text → OrderStore → Option ℕ
delivered_at_epoch timestamp order_id s = elim (lookup (normalize order_id) s.orders) [
  | none ↦ none
  | some entry ↦ elim entry.delivered_at [ some at ↦ some (timestamp at) | none ↦ none ]
]

-- Placements, refunds, returns and cancellations committed so far.
unfoldable pub receipt_counts : OrderStore → ℕ × ℕ × ℕ × ℕ
receipt_counts s = (
  length s.placed_by_key,
  length s.refunds_by_key,
  length s.returns_by_key,
  length s.cancels_by_key,
)
