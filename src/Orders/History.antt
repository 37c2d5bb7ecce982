-- ===== src/Orders/History.antt =====
-- Any sequence of effects on one store, each of which may raise: a raise ends the call alone.
use agnostic_market.Base.{List, [], ◌∷◌, ◌≡◌, refl, none, inl, inr, ◌⊎◌}
use agnostic_market.Text.{Text, normalize}
use agnostic_market.Dict.{Dict, lookup, insert, add}
use agnostic_market.Effect.{Result, ok, err}
use agnostic_market.Money.{Cents, Decimal}
use agnostic_market.Orders.Types.{
  Line, PlacedOrder, RefundRecord, ReturnRecord, CancelRecord, OrderStore,
}
use agnostic_market.Orders.Effects.{place_cart, issue_refund, create_return, cancel_order}
use agnostic_market.Orders.Outcomes.{Outcome, PlacementCommit, RefundCommit, ReturnCommit}
use agnostic_market.Orders.Guards.{CancelGuard}
use agnostic_market.Orders.Calls.{
  RefundDone, ReturnDone, PlacementDone, CancelCallOutcome, place_cart-outcome,
  issue_refund-outcome, create_return-outcome, cancel_order-outcome,
}

-- A call of an effect, with its arguments in the order of the code.
pub data Call : Type 0 where
  place : (key : Text) (lines : List Line) (total : Decimal) → Call
  refund : (key order_id : Text) (amount : Decimal) (destination instrument : Text) → Call
  return_order : (key order_id : Text) (due : Decimal) (destination : Text) → Call
  cancel : (key order_id : Text) → Call

-- The store behind the call, whatever it returned or raised.
unfoldable pub call : Call → OrderStore → OrderStore
call (place key lines total) s = (place_cart key lines total s).1
call (refund key order_id amount destination instrument) s =
    (issue_refund key order_id amount destination instrument s).1
call (return_order key order_id due destination) s =
    (create_return key order_id due destination s).1
call (cancel key order_id) s = (cancel_order key order_id s).1

unfoldable pub run : List Call → OrderStore → OrderStore
unfolding call
run [] s = s
run (c ∷ cs) s = run cs (call c s)

-- The changes that a call can make to the store: one record is committed under a free key, or an
-- order is marked as voided and its record is committed or refused.
pub data Change (s s' : OrderStore) : Type 0 where
  placed :
      (key : Text) (lines : List Line) (total : Cents) (r : PlacedOrder)
      → lookup key s.placed_by_key ≡ none
      → PlacementCommit key lines total s r s'
      → Change s s'
  refunded :
      (key order_id : Text) (amount : Cents) (destination instrument : Text) (r : RefundRecord)
      → lookup key s.refunds_by_key ≡ none
      → RefundCommit key order_id amount destination instrument s r s'
      → Change s s'
  returned :
      (key order_id : Text) (due : Cents) (destination : Text) (r : ReturnRecord)
      → lookup key s.returns_by_key ≡ none
      → ReturnCommit key order_id due destination s r s'
      → Change s s'
  voided :
      (key order_id : Text) (r : CancelRecord) (records : Dict CancelRecord)
      → CancelGuard (normalize order_id) s r.total_usd
      → (records ≡ s.cancels_by_key)
        ⊎ ((lookup key s.cancels_by_key ≡ none) × (records ≡ insert key r s.cancels_by_key))
      → s' ≡ record s {
        cancelled_ids = add (normalize order_id) s.cancelled_ids;
        cancels_by_key = records;
      }
      → Change s s'

abbrev Stepped : OrderStore → OrderStore → Type 0
Stepped s s' = (s' ≡ s) ⊎ Change s s'

outcome-Stepped :
    {A : Type 0} (D : A → OrderStore → Type 0) (s : OrderStore) (o : Result A × OrderStore)
    → Outcome D s o
    → ((r : A) (s' : OrderStore) → D r s' → Stepped s s')
    → Stepped s o.1
outcome-Stepped D s (ok r, s') d step = step r s' d
outcome-Stepped D s (err e, s') same step = inl same

module _ (s : OrderStore) where
  RefundDone-Stepped :
      (key order_id : Text) (amount : Decimal) (destination instrument : Text) (r : RefundRecord)
      (s' : OrderStore)
      → RefundDone key order_id amount destination instrument s r s'
      → Stepped s s'
  RefundDone-Stepped key order_id amount destination instrument r s' (inl (_, _, _, _, same)) =
      inl same
  RefundDone-Stepped key order_id amount destination instrument r s' (inr (paid, _, fresh, c)) =
      inr (Change.refunded key order_id paid destination instrument r fresh c)

  ReturnDone-Stepped :
      (key order_id : Text) (due : Decimal) (destination : Text) (r : ReturnRecord)
      (s' : OrderStore)
      → ReturnDone key order_id due destination s r s'
      → Stepped s s'
  ReturnDone-Stepped key order_id due destination r s' (inl (_, _, _, _, same)) = inl same
  ReturnDone-Stepped key order_id due destination r s' (inr (promised, _, fresh, c)) =
      inr (Change.returned key order_id promised destination r fresh c)

  PlacementDone-Stepped :
      (key : Text) (lines : List Line) (total : Decimal) (r : PlacedOrder) (s' : OrderStore)
      → PlacementDone key lines total s r s'
      → Stepped s s'
  PlacementDone-Stepped key lines total r s' (inl (_, _, _, _, same)) = inl same
  PlacementDone-Stepped key lines total r s' (inr (charged, _, fresh, c)) =
      inr (Change.placed key lines charged r fresh c)

  cancel-Stepped :
      (key order_id : Text) (o : Result CancelRecord × OrderStore)
      → CancelCallOutcome key order_id s o
      → Stepped s o.1
  cancel-Stepped key order_id (ok r, s') (inl (_, _, same)) = inl same
  cancel-Stepped key order_id (ok r, s') (inr (fresh, c)) =
      inr (Change.voided key order_id r _ c.guard (inr (fresh, refl)) c.after)
  cancel-Stepped key order_id (err e, s') (inl same) = inl same
  cancel-Stepped key order_id (err e, s') (inr (r, guard, _, _, _, after)) =
      inr (Change.voided key order_id r s.cancels_by_key guard (inl refl) after)

  -- A call changes nothing, or makes one of the changes.
  pub call-Stepped : (c : Call) → (call c s ≡ s) ⊎ Change s (call c s)
  unfolding call
  call-Stepped (place key lines total) =
      outcome-Stepped (PlacementDone key lines total s) s _ (place_cart-outcome key lines total s)
        (PlacementDone-Stepped key lines total)
  call-Stepped (refund key order_id amount destination instrument) =
      outcome-Stepped (RefundDone key order_id amount destination instrument s) s _
        (issue_refund-outcome key order_id amount destination instrument s)
        (RefundDone-Stepped key order_id amount destination instrument)
  call-Stepped (return_order key order_id due destination) =
      outcome-Stepped (ReturnDone key order_id due destination s) s _
        (create_return-outcome key order_id due destination s)
        (ReturnDone-Stepped key order_id due destination)
  call-Stepped (cancel key order_id) =
      cancel-Stepped key order_id (cancel_order key order_id s)
        (cancel_order-outcome key order_id s)
