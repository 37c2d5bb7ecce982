-- ===== src/Orders/Outcomes.antt =====
-- What each effect of the order store did, by how it ended: it raised and left the store as it
-- was, or its guards held and exactly one record was added.
use agnostic_market.Base.{
  ◌+◌, ◌≡◌, refl, ◌⊎◌, inl, inr, true, false, some, List, arith, Bool-cases, Option-cases,
}
use agnostic_market.Text.{Text, normalize}
use agnostic_market.Dict.{insert, add}
use agnostic_market.Effect.{Result, ok, err, and_then}
use agnostic_market.Money.{Cents}
use agnostic_market.Orders.Types.{
  Line, PlacedOrder, RefundRecord, CancelRecord, ReturnRecord, OrderStore, valid_placed,
  valid_cancel,
}
use agnostic_market.Orders.Store.{order_item_summary}
use agnostic_market.Orders.Guards.{
  RefundGuard, ReturnGuard, CancelGuard, Checks, check_refund-guards, check_return-guards,
  check_cancel-guards,
}
use agnostic_market.Orders.Effects.{
  refund_record, commit_refund, return_record, commit_return, check_cancel, commit_cancel,
  finish_cancel, placed_order, commit_placement, new_placement, new_refund, new_return, new_cancel,
}

-- `P` of the record and the store of a call that returned; a call that raised changed nothing.
abbrev pub Outcome :
    {A : Type 0} → (A → OrderStore → Type 0) → OrderStore → Result A × OrderStore → Type 0
Outcome P s (ok a, s') = P a s'
Outcome P s (err e, s') = s' ≡ s

-- A refund was committed.
pub record RefundCommit (key order_id : Text) (amount : Cents) (destination instrument : Text)
    (s : OrderStore) (r : RefundRecord) (s' : OrderStore) : Type 0 where
  pub guard : RefundGuard order_id amount s
  pub built : r ≡ refund_record s.next_refund_seq order_id amount destination instrument
  pub after : s' ≡ record s {
    next_refund_seq = s.next_refund_seq + 1;
    refunds_by_key = insert key r s.refunds_by_key;
  }

pub new_refund-outcome :
    (key order_id : Text) (amount : Cents) (destination instrument : Text) (s : OrderStore)
    → Outcome
        (RefundCommit key order_id amount destination instrument s)
        s
        (new_refund key order_id amount destination instrument s)
unfolding new_refund commit_refund
new_refund-outcome key order_id amount destination instrument s =
    ground (arith, check_refund-guards order_id amount instrument s)

-- A return was committed.
pub record ReturnCommit (key order_id : Text) (due : Cents) (destination : Text) (s : OrderStore)
    (r : ReturnRecord) (s' : OrderStore) : Type 0 where
  pub guard : ReturnGuard (normalize order_id) due s
  pub summary : Text
  pub spoken : order_item_summary (normalize order_id) s ≡ some summary
  pub built : r ≡ return_record s.next_return_seq (normalize order_id) summary due destination
  pub after : s' ≡ record s {
    next_return_seq = s.next_return_seq + 1;
    returns_by_key = insert key r s.returns_by_key;
  }

pub new_return-outcome :
    (key order_id : Text) (due : Cents) (destination : Text) (s : OrderStore)
    → Outcome
        (ReturnCommit key order_id due destination s)
        s
        (new_return key order_id due destination s)
unfolding new_return commit_return
new_return-outcome key order_id due destination s =
    elim (Option-cases (order_item_summary (normalize order_id) s)) [
      | inl silent ↦ ground (arith, check_return-guards (normalize order_id) due s)
      | inr (summary, spoken) ↦ ground (arith, check_return-guards (normalize order_id) due s)
    ]

-- A placement was committed.
pub record PlacementCommit (key : Text) (lines : List Line) (total : Cents) (s : OrderStore)
    (r : PlacedOrder) (s' : OrderStore) : Type 0 where
  pub valid : valid_placed r ≡ true
  pub built : r ≡ placed_order s.next_seq lines total
  pub after :
      s' ≡ record s { next_seq = s.next_seq + 1; placed_by_key = insert key r s.placed_by_key }

pub new_placement-outcome :
    (key : Text) (lines : List Line) (total : Cents) (s : OrderStore)
    → Outcome (PlacementCommit key lines total s) s (new_placement key lines total s)
unfolding new_placement commit_placement
new_placement-outcome key lines total s = ground arith

-- A cancellation was committed.
pub record CancelCommit (key order_id : Text) (s : OrderStore) (r : CancelRecord) (s' : OrderStore)
    : Type 0 where
  pub guard : CancelGuard (normalize order_id) s r.total_usd
  pub spoken : order_item_summary (normalize order_id) s ≡ some r.summary
  pub ordered : r.order_id ≡ normalize order_id
  pub after : s' ≡ record s {
    cancelled_ids = add (normalize order_id) s.cancelled_ids;
    cancels_by_key = insert key r s.cancels_by_key;
  }

-- A cancellation that raised changed nothing, or its record was refused after the order was
-- marked as voided.
abbrev pub CancelOutcome : Text → Text → OrderStore → Result CancelRecord × OrderStore → Type 0
CancelOutcome key order_id s (ok r, s') = CancelCommit key order_id s r s'
CancelOutcome key order_id s (err e, s') =
    (s' ≡ s)
    ⊎ ((r : CancelRecord) × CancelGuard (normalize order_id) s r.total_usd
        × (order_item_summary (normalize order_id) s ≡ some r.summary)
        × (r.order_id ≡ normalize order_id)
        × (valid_cancel r ≡ false)
        × (s' ≡ record s { cancelled_ids = add (normalize order_id) s.cancelled_ids }))

cancel_with :
    (key order_id : Text) (s : OrderStore) (captured : Cents) (summary : Text)
    → CancelGuard (normalize order_id) s captured
    → order_item_summary (normalize order_id) s ≡ some summary
    → CancelOutcome key order_id s (
        commit_cancel key
          (record { order_id = normalize order_id; summary = summary; total_usd = captured })
          s)
unfolding commit_cancel
cancel_with key order_id s captured summary guard spoken =
    let r : CancelRecord = record {
      order_id = normalize order_id;
      summary = summary;
      total_usd = captured;
    } in
    elim (Bool-cases (valid_cancel r)) [
      | inl valid ↦
          rw valid (record { guard = guard; spoken = spoken; ordered = refl; after = refl })
      | inr bad ↦ rw bad (inr (r, guard, spoken, refl, bad, refl))
    ]

finish_cancel-outcome :
    (key order_id : Text) (captured : Cents) (s : OrderStore)
    → CancelGuard (normalize order_id) s captured
    → CancelOutcome key order_id s (finish_cancel key (normalize order_id) captured s)
unfolding finish_cancel
finish_cancel-outcome key order_id captured s guard =
    elim (Option-cases (order_item_summary (normalize order_id) s)) [
      | inl silent ↦ rw silent (inl refl)
      | inr (summary, spoken) ↦ rw spoken (cancel_with key order_id s captured summary guard spoken)
    ]

after_check :
    (key order_id : Text) (s : OrderStore) (o : Result Cents × OrderStore)
    → Checks (CancelGuard (normalize order_id) s) s o
    → CancelOutcome key order_id s (and_then o.0 (finish_cancel key (normalize order_id)) o.1)
after_check key order_id s (ok captured, s') (guard, same) =
    rw same (finish_cancel-outcome key order_id captured s guard)
after_check key order_id s (err e, s') same = inl same

pub new_cancel-outcome :
    (key order_id : Text) (s : OrderStore)
    → CancelOutcome key order_id s (new_cancel key order_id s)
unfolding new_cancel finish_cancel
new_cancel-outcome key order_id s =
    after_check key order_id s (check_cancel (normalize order_id) s)
      (check_cancel-guards (normalize order_id) s)
