-- ===== src/Orders/Replay.antt =====
-- An effect whose key has been committed is answered from the ledger, after any calls between.
use agnostic_market.Base.{
  ℕ, List, [], ◌∷◌, ◌≡◌, refl, inl, inr, Bool, true, ◌⊎◌, Option, some, arith,
}
use agnostic_market.Text.{Text, strip, normalize}
use agnostic_market.Text.Laws.{text_eq_refl}
use agnostic_market.Dict.{Dict, lookup, insert, mem}
use agnostic_market.Dict.Laws.{lookup-insert}
use agnostic_market.Effect.{Result, ok, err}
use agnostic_market.Money.{Cents, Decimal, validate_usd}
use agnostic_market.Receipts.{committed, classify_receipt}
use agnostic_market.Orders.Types.{
  Line, PlacedOrder, RefundRecord, ReturnRecord, CancelRecord, OrderStore,
}
use agnostic_market.Orders.Effects.{
  lines_eq, placement_matches, refund_matches, return_matches, cancel_matches, placed_order,
  refund_record, return_record, place_cart, issue_refund, create_return, cancel_order,
  placement_receipt, refund_receipt, return_receipt, cancel_receipt,
}
use agnostic_market.Orders.Outcomes.{Outcome, RefundCommit, ReturnCommit, PlacementCommit}
use agnostic_market.Orders.Calls.{
  Done, CancelCallOutcome, place_cart-outcome, issue_refund-outcome, create_return-outcome,
  cancel_order-outcome,
}
use agnostic_market.Orders.History.{Call, run}
use agnostic_market.Orders.Ledgers.{mem-add}
use agnostic_market.Orders.Growth.{Keeps, run-Extends}

lookup-insert_self : {V : Type 0} (k : Text) (v : V) (d : Dict V) → lookup k (insert k v d) ≡ some v
lookup-insert_self k v d = ground (arith, lookup-insert k k v d, text_eq_refl k)

-- The record stands in the ledger and answers the call.
abbrev pub Answers : {R : Type 0} → Option R → Decimal → (Cents → R → Bool) → R → Type 0
Answers existing amount matches r =
    (checked : Cents) × (validate_usd amount ≡ some checked)
    × (existing ≡ some r)
    × (matches checked r ≡ true)

refund_matches-record :
    (seq : ℕ) (order_id : Text) (amount : Cents) (destination instrument : Text)
    → refund_matches
        (refund_record seq order_id amount destination instrument)
        order_id
        amount
        destination
        instrument
      ≡ true
unfolding refund_matches refund_record
refund_matches-record seq order_id amount destination instrument = ground (
  arith,
  text_eq_refl (normalize order_id),
  text_eq_refl destination,
  text_eq_refl (strip instrument),
)

return_matches-record :
    (seq : ℕ) (order_id summary : Text) (due : Cents) (destination : Text)
    → return_matches
        (return_record seq (normalize order_id) summary due destination)
        order_id
        due
        destination
      ≡ true
unfolding return_matches return_record
return_matches-record seq order_id summary due destination =
    ground (arith, text_eq_refl (normalize order_id), text_eq_refl destination)

lines_eq_refl : (lines : List Line) → lines_eq lines lines ≡ true
unfolding lines_eq
lines_eq_refl [] = refl
lines_eq_refl (l ∷ lines) =
    ground (arith, text_eq_refl l.sku, text_eq_refl l.name, lines_eq_refl lines)

placement_matches-record :
    (seq : ℕ) (lines : List Line) (total : Cents)
    → placement_matches (placed_order seq lines total) lines total ≡ true
unfolding placement_matches placed_order
placement_matches-record seq lines total = ground (arith, lines_eq_refl lines)

-- A call that returned has recorded its result.
module _ {R : Type 0} (ledger : OrderStore → Dict R) (key : Text) (amount : Decimal)
    (matches : Cents → R → Bool) (Commit : Cents → R → OrderStore → Type 0) (s : OrderStore)
    (kept : (c : Cents) (r : R) (s' : OrderStore)
      → Commit c r s'
      → (lookup key (ledger s') ≡ some r) × (matches c r ≡ true)) where
  recorded :
      (r : R) (o : Result R × OrderStore)
      → Outcome (Done (lookup key (ledger s)) amount matches Commit s) s o
      → o.0 ≡ ok r
      → Answers (lookup key (ledger o.1)) amount matches r
  recorded r (ok q, s') (inl (c, v, found, same, e)) h = (c, v, ground arith, ground arith)
  recorded r (ok q, s') (inr (c, v, fresh, commit)) h =
      (c, v, ground (arith, kept c q s' commit), ground (arith, kept c q s' commit))
  recorded r (err e, s') d h = cc

  replay_after :
      (r : R) (o : Result R × OrderStore)
      → Outcome (Done (lookup key (ledger s)) amount matches Commit s) s o
      → o.0 ≡ ok r
      → (t : OrderStore) → Keeps (ledger o.1) (ledger t)
      → Answers (lookup key (ledger t)) amount matches r
  replay_after r o d h t keep =
      let (c, v, found, same) = recorded r o d h in (c, v, keep key r found, same)

refund_kept :
    (key order_id : Text) (destination instrument : Text) (s : OrderStore) (c : Cents)
    (r : RefundRecord) (s' : OrderStore)
    → RefundCommit key order_id c destination instrument s r s'
    → (lookup key s'.refunds_by_key ≡ some r)
      × (refund_matches r order_id c destination instrument ≡ true)
refund_kept key order_id destination instrument s c r s' commit = (
  rw commit.after (lookup-insert_self key r s.refunds_by_key),
  rw commit.built (refund_matches-record s.next_refund_seq order_id c destination instrument),
)

return_kept :
    (key order_id : Text) (destination : Text) (s : OrderStore) (c : Cents) (r : ReturnRecord)
    (s' : OrderStore)
    → ReturnCommit key order_id c destination s r s'
    → (lookup key s'.returns_by_key ≡ some r) × (return_matches r order_id c destination ≡ true)
return_kept key order_id destination s c r s' commit = (
  rw commit.after (lookup-insert_self key r s.returns_by_key),
  rw commit.built (return_matches-record s.next_return_seq order_id commit.summary c destination),
)

placement_kept :
    (key : Text) (lines : List Line) (s : OrderStore) (c : Cents) (r : PlacedOrder)
    (s' : OrderStore)
    → PlacementCommit key lines c s r s'
    → (lookup key s'.placed_by_key ≡ some r) × (placement_matches r lines c ≡ true)
placement_kept key lines s c r s' commit = (
  rw commit.after (lookup-insert_self key r s.placed_by_key),
  rw commit.built (placement_matches-record s.next_seq lines c),
)

refund_answered :
    (key order_id : Text) (amount : Decimal) (destination instrument : Text) (r : RefundRecord)
    (t : OrderStore)
    → Answers
        (lookup key t.refunds_by_key)
        amount
        (λ c q. refund_matches q order_id c destination instrument)
        r
    → (issue_refund key order_id amount destination instrument t ≡ (ok r, t))
      × (refund_receipt key order_id amount destination instrument t ≡ (ok (committed r), t))
unfolding issue_refund refund_receipt classify_receipt
refund_answered key order_id amount destination instrument r t (c, v, found, same) =
    (rw (v, found, same) refl, rw (v, found, same) refl)

-- A refund that was issued once is answered from the ledger ever after: whatever calls follow,
-- the same call returns the same record and changes nothing, and its receipt is the record.
pub issue_refund-replay :
    (key order_id : Text) (amount : Decimal) (destination instrument : Text) (s : OrderStore)
    (r : RefundRecord) (cs : List Call)
    → (issue_refund key order_id amount destination instrument s).0 ≡ ok r
    → let t = run cs (issue_refund key order_id amount destination instrument s).1 in
      (issue_refund key order_id amount destination instrument t ≡ (ok r, t))
      × (refund_receipt key order_id amount destination instrument t ≡ (ok (committed r), t))
issue_refund-replay key order_id amount destination instrument s r cs h =
    let o = issue_refund key order_id amount destination instrument s in
    let t = run cs o.1 in
    refund_answered key order_id amount destination instrument r t (
      replay_after (λ u. u.refunds_by_key) key amount
        (λ c q. refund_matches q order_id c destination instrument)
        (λ c. RefundCommit key order_id c destination instrument s) s
        (refund_kept key order_id destination instrument s) r o
        (issue_refund-outcome key order_id amount destination instrument s) h t
        (run-Extends cs o.1).refunds)

return_answered :
    (key order_id : Text) (due : Decimal) (destination : Text) (r : ReturnRecord) (t : OrderStore)
    → Answers (lookup key t.returns_by_key) due (λ c q. return_matches q order_id c destination) r
    → (create_return key order_id due destination t ≡ (ok r, t))
      × (return_receipt key order_id due destination t ≡ (ok (committed r), t))
unfolding create_return return_receipt classify_receipt
return_answered key order_id due destination r t (c, v, found, same) =
    (rw (v, found, same) refl, rw (v, found, same) refl)

-- A return that was created once is answered from the ledger ever after.
pub create_return-replay :
    (key order_id : Text) (due : Decimal) (destination : Text) (s : OrderStore) (r : ReturnRecord)
    (cs : List Call)
    → (create_return key order_id due destination s).0 ≡ ok r
    → let t = run cs (create_return key order_id due destination s).1 in
      (create_return key order_id due destination t ≡ (ok r, t))
      × (return_receipt key order_id due destination t ≡ (ok (committed r), t))
create_return-replay key order_id due destination s r cs h =
    let o = create_return key order_id due destination s in
    let t = run cs o.1 in
    return_answered key order_id due destination r t (
      replay_after (λ u. u.returns_by_key) key due (λ c q. return_matches q order_id c destination)
        (λ c. ReturnCommit key order_id c destination s) s (return_kept key order_id destination s)
        r o (create_return-outcome key order_id due destination s) h t (run-Extends cs o.1).returns)

placement_answered :
    (key : Text) (lines : List Line) (total : Decimal) (r : PlacedOrder) (t : OrderStore)
    → Answers (lookup key t.placed_by_key) total (λ c q. placement_matches q lines c) r
    → (place_cart key lines total t ≡ (ok r, t))
      × (placement_receipt key lines total t ≡ (ok (committed r), t))
unfolding place_cart placement_receipt classify_receipt
placement_answered key lines total r t (c, v, found, same) =
    (rw (v, found, same) refl, rw (v, found, same) refl)

-- A cart that was placed once is answered from the ledger ever after: whatever calls follow, the
-- same call returns the same order and creates no second one.
pub place_cart-replay :
    (key : Text) (lines : List Line) (total : Decimal) (s : OrderStore) (r : PlacedOrder)
    (cs : List Call)
    → (place_cart key lines total s).0 ≡ ok r
    → let t = run cs (place_cart key lines total s).1 in
      (place_cart key lines total t ≡ (ok r, t))
      × (placement_receipt key lines total t ≡ (ok (committed r), t))
place_cart-replay key lines total s r cs h =
    let o = place_cart key lines total s in
    let t = run cs o.1 in
    placement_answered key lines total r t (
      replay_after (λ u. u.placed_by_key) key total (λ c q. placement_matches q lines c)
        (λ c. PlacementCommit key lines c s) s (placement_kept key lines s) r o
        (place_cart-outcome key lines total s) h t (run-Extends cs o.1).placements)

cancel_recorded :
    (key order_id : Text) (s : OrderStore) (r : CancelRecord) (o : Result CancelRecord × OrderStore)
    → CancelCallOutcome key order_id s o
    → o.0 ≡ ok r
    → (lookup key o.1.cancels_by_key ≡ some r)
      × (cancel_matches r order_id ≡ true)
      × (mem (normalize order_id) o.1.cancelled_ids ≡ true ⊎ (o.1 ≡ s))
unfolding cancel_matches
cancel_recorded key order_id s r (ok q, s') (inl (found, same, e)) h =
    (ground arith, ground arith, inr e)
cancel_recorded key order_id s r (ok q, s') (inr (fresh, c)) h = (
  rw c.after (ground (arith, lookup-insert_self key q s.cancels_by_key)),
  ground (arith, c.ordered, text_eq_refl (normalize order_id)),
  inl (
      rw c.after (
        ground (
          arith,
          mem-add (normalize order_id) (normalize order_id) s.cancelled_ids,
          text_eq_refl (normalize order_id),
        ))),
)
cancel_recorded key order_id s r (err e, s') d h = cc

cancel_answered :
    (key order_id : Text) (r : CancelRecord) (t : OrderStore)
    → lookup key t.cancels_by_key ≡ some r
    → cancel_matches r order_id ≡ true
    → (cancel_order key order_id t ≡ (ok r, t))
      × (cancel_receipt key order_id t ≡ (ok (committed r), t))
unfolding cancel_order cancel_receipt classify_receipt
cancel_answered key order_id r t found same = (rw (found, same) refl, rw (found, same) refl)

-- A cancellation that was made once is answered from the ledger ever after.
pub cancel_order-replay :
    (key order_id : Text) (s : OrderStore) (r : CancelRecord) (cs : List Call)
    → (cancel_order key order_id s).0 ≡ ok r
    → let t = run cs (cancel_order key order_id s).1 in
      (cancel_order key order_id t ≡ (ok r, t))
      × (cancel_receipt key order_id t ≡ (ok (committed r), t))
cancel_order-replay key order_id s r cs h =
    let o = cancel_order key order_id s in
    let t = run cs o.1 in
    let (found, same, _) =
      cancel_recorded key order_id s r o (cancel_order-outcome key order_id s) h in
    cancel_answered key order_id r t ((run-Extends cs o.1).cancels key r found) same
