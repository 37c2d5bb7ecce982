-- ===== src/Orders/Guards.antt =====
-- What the guards of a refund, a return and a cancellation establish. They only read the store.
use agnostic_market.Base.{◌+◌, ◌≤◌, ◌≡◌, inl, inr, true, false, none, some, arith, Option-cases}
use agnostic_market.Text.{Text}
use agnostic_market.Effect.{Result, ok, err}
use agnostic_market.Money.{Cents}
use agnostic_market.Orders.Types.{OrderStore}
use agnostic_market.Orders.Store.{
  order_status, captured_total, refunded_so_far, return_for_order, return_refund_due, is_fulfilled,
  in_cancellable, is_cancelled,
}
use agnostic_market.Orders.Effects.{check_refund, check_return, check_cancel}

-- What a refund checks before it is committed.
pub record RefundGuard (order_id : Text) (amount : Cents) (s : OrderStore) : Type 0 where
  pub captured : Cents
  pub known : captured_total order_id s ≡ some captured
  pub live : is_cancelled (order_status order_id s) ≡ false
  pub within : refunded_so_far order_id s + return_refund_due order_id s + amount ≤ captured

-- A read-only step: it leaves the store as it was, and if it passes, `P` holds.
abbrev pub Checks : {A : Type 0} → (A → Type 0) → OrderStore → Result A × OrderStore → Type 0
Checks P s (ok a, s') = P a × (s' ≡ s)
Checks P s (err e, s') = s' ≡ s

pub check_refund-guards :
    (order_id : Text) (amount : Cents) (instrument : Text) (s : OrderStore)
    → Checks (λ _. RefundGuard order_id amount s) s (check_refund order_id amount instrument s)
unfolding check_refund
check_refund-guards order_id amount instrument s = elim (Option-cases (captured_total order_id s)) [
  | inl unknown ↦ ground arith
  | inr (captured, known) ↦ ground arith
]

-- What a return checks before it is committed, on the canonical id.
pub record ReturnGuard (id : Text) (due : Cents) (s : OrderStore) : Type 0 where
  pub status : Text
  pub captured : Cents
  pub reached : order_status id s ≡ some status
  pub fulfilled : is_fulfilled status ≡ true
  pub first : return_for_order id s ≡ none
  pub known : captured_total id s ≡ some captured
  pub within : refunded_so_far id s + due ≤ captured

pub check_return-guards :
    (id : Text) (due : Cents) (s : OrderStore)
    → Checks (λ _. ReturnGuard id due s) s (check_return id due s)
unfolding check_return
check_return-guards id due s = elim (Option-cases (order_status id s)) [
  | inl unknown ↦ ground arith
  | inr (status, reached) ↦ elim (Option-cases (captured_total id s)) [
    | inl unknown ↦ ground arith
    | inr (captured, known) ↦ ground arith
  ]
]

-- What a cancellation checks before it is committed, on the canonical id.
pub record CancelGuard (id : Text) (s : OrderStore) (captured : Cents) : Type 0 where
  pub cancellable : in_cancellable (order_status id s) ≡ true
  pub unrefunded : refunded_so_far id s ≡ 0
  pub known : captured_total id s ≡ some captured

pub check_cancel-guards :
    (id : Text) (s : OrderStore) → Checks (CancelGuard id s) s (check_cancel id s)
unfolding check_cancel
check_cancel-guards id s = elim (Option-cases (order_status id s)) [
  | inl unknown ↦ ground arith
  | inr (status, reached) ↦ ground arith
]
