-- ===== src/Orders/Calls.antt =====
-- What a whole call of an effect did: it raised, it was a replay of a committed record, or it
-- committed a record under a key that was free.
use agnostic_market.Base.{
  ◌≡◌, refl, ◌⊎◌, inl, inr, true, Bool, Option, none, some, List, Bool-cases, Option-cases,
}
use agnostic_market.Text.{Text}
use agnostic_market.Dict.{lookup}
use agnostic_market.Effect.{
  Error, Result, ok, err, Action, ◌>>=◌, gets, or_raise, replay, validation, placement, refund,
  return_order,
}
use agnostic_market.Money.{Cents, Decimal, validate_usd}
use agnostic_market.Orders.Types.{
  Line, PlacedOrder, RefundRecord, CancelRecord, ReturnRecord, OrderStore,
}
use agnostic_market.Orders.Effects.{
  new_placement, new_refund, new_return, new_cancel, place_cart, issue_refund, create_return,
  cancel_order, placement_matches, refund_matches, return_matches, cancel_matches,
}
use agnostic_market.Orders.Outcomes.{
  Outcome, RefundCommit, ReturnCommit, PlacementCommit, CancelCommit, CancelOutcome,
  new_placement-outcome, new_refund-outcome, new_return-outcome, new_cancel-outcome,
}

-- A call with an idempotency key returned: a replay, or a commit under a free key.
abbrev pub Done :
    {R : Type 0}
    → Option R
    → Decimal
    → (Cents → R → Bool)
    → (Cents → R → OrderStore → Type 0)
    → OrderStore
    → R
    → OrderStore
    → Type 0
Done existing amount matches Commit s r s' =
    ((checked : Cents) × (validate_usd amount ≡ some checked)
      × (existing ≡ some r)
      × (matches checked r ≡ true)
      × (s' ≡ s))
    ⊎ ((checked : Cents) × (validate_usd amount ≡ some checked)
        × (existing ≡ none)
        × Commit checked r s')

module _ {R : Type 0} (amount : Decimal) (matches : Cents → R → Bool) (e : Error)
    (commit : Cents → Action OrderStore R) (Commit : Cents → R → OrderStore → Type 0)
    (s : OrderStore) (outcome : (c : Cents) → Outcome (Commit c) s (commit c s)) where
  committed :
      (checked : Cents) (o : Result R × OrderStore)
      → validate_usd amount ≡ some checked
      → Outcome (Commit checked) s o
      → Outcome (Done none amount matches Commit s) s o
  committed checked (ok r, s') v c = inr (checked, v, refl, c)
  committed checked (err _, s') v c = c

  answered :
      (checked : Cents) (existing : Option R)
      → validate_usd amount ≡ some checked
      → Outcome (Done existing amount matches Commit s) s (
          let next : Action OrderStore R = elim existing [
            | some r ↦ replay (matches checked r) r e
            | none ↦ commit checked
          ] in
          next s)
  answered checked none v = committed checked (commit checked s) v (outcome checked)
  answered checked (some r) v = elim (Bool-cases (matches checked r)) [
    | inl same ↦ rw same (inl (checked, v, refl, same, refl))
    | inr other ↦ rw other refl
  ]

  -- The shape that the effects share.
  pub keyed-outcome :
      (ledger : OrderStore → Option R)
      → Outcome (Done (ledger s) amount matches Commit s) s (
          let call : Action OrderStore R = (do
            checked ← or_raise (validate_usd amount) validation
            existing ← gets ledger
            elim existing [ some r ↦ replay (matches checked r) r e | none ↦ commit checked ]) in
          call s)
  keyed-outcome ledger = elim (Option-cases (validate_usd amount)) [
    | inl bad ↦ rw bad refl
    | inr (checked, v) ↦ rw v (answered checked (ledger s) v)
  ]

-- `issue_refund` returned.
abbrev pub RefundDone :
    Text → Text → Decimal → Text → Text → OrderStore → RefundRecord → OrderStore → Type 0
RefundDone key order_id amount destination instrument s =
    Done (lookup key s.refunds_by_key) amount
      (λ c r. refund_matches r order_id c destination instrument)
      (λ c. RefundCommit key order_id c destination instrument s) s

pub issue_refund-outcome :
    (key order_id : Text) (amount : Decimal) (destination instrument : Text) (s : OrderStore)
    → Outcome
        (RefundDone key order_id amount destination instrument s)
        s
        (issue_refund key order_id amount destination instrument s)
unfolding issue_refund
issue_refund-outcome key order_id amount destination instrument s =
    keyed-outcome amount (λ c r. refund_matches r order_id c destination instrument) refund
      (λ c. new_refund key order_id c destination instrument)
      (λ c. RefundCommit key order_id c destination instrument s) s
      (λ c. new_refund-outcome key order_id c destination instrument s)
      (λ t. lookup key t.refunds_by_key)

-- `create_return` returned.
abbrev pub ReturnDone :
    Text → Text → Decimal → Text → OrderStore → ReturnRecord → OrderStore → Type 0
ReturnDone key order_id due destination s =
    Done (lookup key s.returns_by_key) due (λ c r. return_matches r order_id c destination)
      (λ c. ReturnCommit key order_id c destination s) s

pub create_return-outcome :
    (key order_id : Text) (due : Decimal) (destination : Text) (s : OrderStore)
    → Outcome
        (ReturnDone key order_id due destination s)
        s
        (create_return key order_id due destination s)
unfolding create_return
create_return-outcome key order_id due destination s =
    keyed-outcome due (λ c r. return_matches r order_id c destination) return_order
      (λ c. new_return key order_id c destination) (λ c. ReturnCommit key order_id c destination s)
      s (λ c. new_return-outcome key order_id c destination s) (λ t. lookup key t.returns_by_key)

-- `place_cart` returned.
abbrev pub PlacementDone :
    Text → List Line → Decimal → OrderStore → PlacedOrder → OrderStore → Type 0
PlacementDone key lines total s =
    Done (lookup key s.placed_by_key) total (λ c r. placement_matches r lines c)
      (λ c. PlacementCommit key lines c s) s

pub place_cart-outcome :
    (key : Text) (lines : List Line) (total : Decimal) (s : OrderStore)
    → Outcome (PlacementDone key lines total s) s (place_cart key lines total s)
unfolding place_cart
place_cart-outcome key lines total s =
    keyed-outcome total (λ c r. placement_matches r lines c) placement (new_placement key lines)
      (λ c. PlacementCommit key lines c s) s (λ c. new_placement-outcome key lines c s)
      (λ t. lookup key t.placed_by_key)

-- How `cancel_order` ended.
abbrev pub CancelCallOutcome : Text → Text → OrderStore → Result CancelRecord × OrderStore → Type 0
CancelCallOutcome key order_id s (ok r, s') =
    ((lookup key s.cancels_by_key ≡ some r) × (cancel_matches r order_id ≡ true) × (s' ≡ s))
    ⊎ ((lookup key s.cancels_by_key ≡ none) × CancelCommit key order_id s r s')
CancelCallOutcome key order_id s (err e, s') = CancelOutcome key order_id s (err e, s')

cancelled_new :
    (key order_id : Text) (s : OrderStore) (o : Result CancelRecord × OrderStore)
    → lookup key s.cancels_by_key ≡ none
    → CancelOutcome key order_id s o
    → CancelCallOutcome key order_id s o
cancelled_new key order_id s (ok r, s') fresh c = inr (fresh, c)
cancelled_new key order_id s (err e, s') fresh c = c

pub cancel_order-outcome :
    (key order_id : Text) (s : OrderStore)
    → CancelCallOutcome key order_id s (cancel_order key order_id s)
unfolding cancel_order
cancel_order-outcome key order_id s = elim (Option-cases (lookup key s.cancels_by_key)) [
  | inl fresh ↦
      rw (fresh, CancelCallOutcome)
        (cancelled_new key order_id s (new_cancel key order_id s) fresh
          (new_cancel-outcome key order_id s))
  | inr (r, seen) ↦ elim (Bool-cases (cancel_matches r order_id)) [
    | inl same ↦ rw (seen, same) (inl (seen, same, refl))
    | inr other ↦ rw (seen, other) (inl refl)
  ]
]
