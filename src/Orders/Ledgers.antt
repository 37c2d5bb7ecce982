-- ===== src/Orders/Ledgers.antt =====
-- The sums and searches over a ledger when a record is added under a free key, and how the reads
-- see a canonical id.
use agnostic_market.Base.{
  ◌+◌, ◌≡◌, refl, ap, inl, inr, true, false, ◌||◌, none, some, List, [], ◌∷◌, ◌++◌, arith,
  if◌then◌else◌, Option-cases,
}
use agnostic_market.Text.{Text, text_eq, normalize}
use agnostic_market.Text.Laws.{text_eq_iff, text_eq_refl}
use agnostic_market.Dict.{Dict, lookup, insert, values, mem, add}
use agnostic_market.Orders.Types.{
  PlacedOrder, RefundRecord, ReturnRecord, OrderStore, processing, cancelled, shipped, delivered,
}
use agnostic_market.Orders.Solvent.{Fulfilled}
use agnostic_market.Orders.Store.{
  find_placed, refund_sum, find_return, return_sum, order_status, captured_total, status_at,
  captured_at, refunded_so_far, is_cancelled, is_fulfilled, in_cancellable, return_refund_due,
}

pub values-insert_new {ℓ} :
    {V : Type ℓ} (k : Text) (v : V) (d : Dict V)
    → lookup k d ≡ none
    → values (insert k v d) ≡ values d ++ v ∷ []
unfolding lookup insert
values-insert_new k v [] h = refl
values-insert_new k v ((j, w) ∷ d) h = ground (arith, values-insert_new k v d)

pub refund_sum-snoc :
    (id : Text) (rs : List RefundRecord) (r : RefundRecord)
    → refund_sum id (rs ++ r ∷ [])
      ≡ refund_sum id rs + (if text_eq r.order_id id then r.amount_usd else 0)
unfolding refund_sum
refund_sum-snoc id [] r = ground arith
refund_sum-snoc id (q ∷ rs) r = ground (arith, refund_sum-snoc id rs r)

pub return_sum-snoc :
    (id : Text) (rs : List ReturnRecord) (r : ReturnRecord)
    → return_sum id (rs ++ r ∷ [])
      ≡ return_sum id rs + (if text_eq r.order_id id then r.refund_due_usd else 0)
unfolding return_sum
return_sum-snoc id [] r = ground arith
return_sum-snoc id (q ∷ rs) r = ground (arith, return_sum-snoc id rs r)

-- Without an open return nothing is promised.
pub return_sum-none :
    (id : Text) (rs : List ReturnRecord) → find_return id rs ≡ none → return_sum id rs ≡ 0
unfolding find_return return_sum
return_sum-none id [] h = refl
return_sum-none id (r ∷ rs) h = ground (arith, return_sum-none id rs)

pub find_placed-snoc :
    (id : Text) (ps : List PlacedOrder) (p : PlacedOrder)
    → find_placed id (ps ++ p ∷ []) ≡ elim (find_placed id ps) [
      | some found ↦ some found
      | none ↦ if text_eq p.order_id id then some p else none
    ]
unfolding find_placed
find_placed-snoc id [] p = ground arith
find_placed-snoc id (q ∷ ps) p = ground (arith, find_placed-snoc id ps p)

pub find_return-snoc :
    (id : Text) (rs : List ReturnRecord) (r : ReturnRecord)
    → find_return id (rs ++ r ∷ []) ≡ elim (find_return id rs) [
      | some found ↦ some found
      | none ↦ if text_eq r.order_id id then some r else none
    ]
unfolding find_return
find_return-snoc id [] r = ground arith
find_return-snoc id (q ∷ rs) r = ground (arith, find_return-snoc id rs r)

mem-append : (k : Text) (xs ys : List Text) → mem k (xs ++ ys) ≡ mem k xs || mem k ys
unfolding mem
mem-append k [] ys = refl
mem-append k (x ∷ xs) ys = ground (arith, mem-append k xs ys)

mem_of_eq : (k j : Text) (xs : List Text) → text_eq k j ≡ true → mem k xs ≡ true → mem j xs ≡ true
unfolding mem
mem_of_eq k j [] e h = cc
mem_of_eq k j (x ∷ xs) e h = ground (arith, text_eq_iff k j, mem_of_eq k j xs e)

pub mem-add : (k j : Text) (xs : List Text) → mem j (add k xs) ≡ text_eq k j || mem j xs
unfolding add mem
mem-add k j xs = ground (arith, mem-append j xs (k ∷ []), mem_of_eq k j xs)

-- The reads see the canonical id alone.
module _ (a b : Text) (s : OrderStore) (e : normalize a ≡ normalize b) where
  pub order_status-congr : order_status a s ≡ order_status b s
  unfolding order_status
  order_status-congr = ap (λ i. status_at i s) e

  pub captured_total-congr : captured_total a s ≡ captured_total b s
  unfolding captured_total
  captured_total-congr = ap (λ i. captured_at i s) e

  pub refunded_so_far-congr : refunded_so_far a s ≡ refunded_so_far b s
  unfolding refunded_so_far
  refunded_so_far-congr = ap (λ i. refund_sum i (values s.refunds_by_key)) e

  pub return_refund_due-congr : return_refund_due a s ≡ return_refund_due b s
  unfolding return_refund_due
  return_refund_due-congr = ap (λ i. return_sum i (values s.returns_by_key)) e

-- A live order is not in the set of voided ones.
pub not_voided :
    (id : Text) (s : OrderStore)
    → is_cancelled (order_status id s) ≡ false
    → mem (normalize id) s.cancelled_ids ≡ false
unfolding order_status is_cancelled text_eq
not_voided id s h = ground arith

fulfilled_words :
    (status : Text)
    → is_fulfilled status ≡ true
    → (text_eq status processing ≡ false) × (text_eq status cancelled ≡ false)
unfolding is_fulfilled
fulfilled_words status h = ground (
  arith,
  text_eq_iff status shipped,
  text_eq_iff status delivered,
  text_eq_iff status processing,
  text_eq_iff status cancelled,
)

-- An order whose status is fulfilled comes from the fixture.
pub Fulfilled-entry :
    (id : Text) (s : OrderStore) (status : Text)
    → order_status id s ≡ some status
    → is_fulfilled status ≡ true
    → Fulfilled (normalize id) s × (mem (normalize id) s.cancelled_ids ≡ false)
unfolding order_status
Fulfilled-entry id s status e h = elim (Option-cases (lookup (normalize id) s.orders)) [
  | inl missing ↦
      absurd
        (ground (arith, fulfilled_words status h, text_eq_refl processing, text_eq_refl cancelled))
  | inr (entry, found) ↦ (
    (entry, found, ground (arith, fulfilled_words status h, text_eq_refl cancelled)),
    ground (arith, fulfilled_words status h, text_eq_refl cancelled),
  )
]

-- A cancellable order is not one of the fixture that is fulfilled.
pub cancellable_open :
    (id : Text) (s : OrderStore)
    → in_cancellable (order_status id s) ≡ true
    → ¬ (Fulfilled (normalize id) s)
unfolding order_status in_cancellable
cancellable_open id s h (entry, found, done) =
    ground (arith, fulfilled_words entry.status done, text_eq_iff cancelled processing)
