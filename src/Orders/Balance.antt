-- ===== src/Orders/Balance.antt =====
-- No sequence of effects gives back more on an order than was captured for it.
use agnostic_market.Base.{List, [], ◌∷◌, ◌≤◌, refl, inl, inr, arith}
use agnostic_market.Text.{Text}
use agnostic_market.Dict.{Dict, mem}
use agnostic_market.Orders.Types.{OrderEntry, OrderStore, empty_store}
use agnostic_market.Orders.Store.{
  captured_total, refunded_so_far, return_refund_due, refund_sum, return_sum,
}
use agnostic_market.Orders.History.{
  Call, Change, placed, refunded, returned, voided, call, run, call-Stepped,
}
use agnostic_market.Orders.Solvent.{IsSolvent, money_out, money_out-le, or_zero}
use agnostic_market.Orders.Conservation.Refunds.{refund-IsSolvent}
use agnostic_market.Orders.Conservation.Returns.{return-IsSolvent}
use agnostic_market.Orders.Conservation.Placements.{placement-IsSolvent}
use agnostic_market.Orders.Conservation.Cancels.{void-IsSolvent}

Change-IsSolvent : {s s' : OrderStore} → Change s s' → IsSolvent s → IsSolvent s'
Change-IsSolvent {s} {s'} (placed key lines total r fresh c) h =
    placement-IsSolvent key lines total s s' r fresh c h
Change-IsSolvent {s} {s'} (refunded key order_id amount destination instrument r fresh c) h =
    refund-IsSolvent key order_id amount destination instrument s s' r fresh c h
Change-IsSolvent {s} {s'} (returned key order_id due destination r fresh c) h =
    return-IsSolvent key order_id due destination s s' r fresh c h
Change-IsSolvent {s} {s'} (voided key order_id r records guard _ after) h =
    void-IsSolvent order_id s s' r.total_usd guard records after h

-- One call keeps the money invariant.
pub call-IsSolvent : (c : Call) (s : OrderStore) → IsSolvent s → IsSolvent (call c s)
call-IsSolvent c s h = elim (call-Stepped s c) [
  | inl same ↦ rw same h
  | inr change ↦ Change-IsSolvent change h
]

pub run-IsSolvent : (cs : List Call) (s : OrderStore) → IsSolvent s → IsSolvent (run cs s)
unfolding run
run-IsSolvent [] s h = h
run-IsSolvent (c ∷ cs) s h = run-IsSolvent cs (call c s) (call-IsSolvent c s h)

empty_store-IsSolvent :
    (tenant : Text) (orders : Dict OrderEntry) → IsSolvent (empty_store tenant orders)
unfolding empty_store refunded_so_far return_refund_due mem refund_sum return_sum
empty_store-IsSolvent tenant orders = record {
  within = λ id. omega arith;
  voided = λ id h. refl;
  promised = λ id. inl refl;
  kept = λ id f. refl;
}

-- From a new store, whatever calls are made and whether they return or raise: the refunds paid on
-- an order, the refunds promised on its open returns and its voided charge together are at most
-- the amount captured for it, and nothing is given back on an order that the store does not know.
pub run-solvent :
    (tenant : Text) (orders : Dict OrderEntry) (cs : List Call) (id : Text)
    → let s = run cs (empty_store tenant orders) in money_out id s ≤ or_zero (captured_total id s)
run-solvent tenant orders cs id =
    money_out-le id _ (run-IsSolvent cs _ (empty_store-IsSolvent tenant orders))
