-- ===== src/Orders/Solvent.antt =====
-- The money invariant of the order store, on canonical ids.
use agnostic_market.Base.{◌+◌, ◌≤◌, ◌≡◌, ◌⊎◌, true, false, Option, none, some, arith, if◌then◌else◌}
use agnostic_market.Text.{Text, normalize}
use agnostic_market.Dict.{lookup, mem}
use agnostic_market.Money.{Cents}
use agnostic_market.Orders.Types.{OrderEntry, OrderStore}
use agnostic_market.Orders.Store.{captured_total, refunded_so_far, return_refund_due, is_fulfilled}

abbrev pub or_zero : Option Cents → Cents
or_zero none = 0
or_zero (some c) = c

-- `id` names an order of the fixture that has been shipped or delivered.
abbrev pub Fulfilled : Text → OrderStore → Type 0
Fulfilled id s =
    (entry : OrderEntry) × (lookup id s.orders ≡ some entry) × (is_fulfilled entry.status ≡ true)

pub record IsSolvent (s : OrderStore) : Type 0 where
  -- refunds paid and refunds promised fit into what was captured
  pub within :
      (id : Text) → refunded_so_far id s + return_refund_due id s ≤ or_zero (captured_total id s)
  -- a voided order has no refund beside the void
  pub voided : (id : Text) → mem (normalize id) s.cancelled_ids ≡ true → refunded_so_far id s ≡ 0
  -- a refund is promised on fulfilled orders only
  pub promised : (id : Text) → (return_refund_due id s ≡ 0) ⊎ Fulfilled (normalize id) s
  -- a fulfilled order is not voided
  pub kept : (id : Text) → Fulfilled (normalize id) s → mem (normalize id) s.cancelled_ids ≡ false

-- What an order has given back: refunds, promises on open returns, and the voided charge.
unfoldable pub money_out : Text → OrderStore → Cents
money_out id s =
    refunded_so_far id s
    + return_refund_due id s
    + (if mem (normalize id) s.cancelled_ids then or_zero (captured_total id s) else 0)

pub money_out-le :
    (id : Text) (s : OrderStore) → IsSolvent s → money_out id s ≤ or_zero (captured_total id s)
unfolding money_out
money_out-le id s h = ground (arith, h.within id, h.voided id, h.promised id, h.kept id)
