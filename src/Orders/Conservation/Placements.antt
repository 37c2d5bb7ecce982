-- ===== src/Orders/Conservation/Placements.antt =====
-- A committed placement keeps the money invariant.
use agnostic_market.Base.{◌≤◌, ◌≡◌, refl, inl, inr, none, some, List, arith, Option-cases}
use agnostic_market.Text.{Text, normalize}
use agnostic_market.Dict.{lookup, values}
use agnostic_market.Money.{Cents}
use agnostic_market.Orders.Types.{PlacedOrder, OrderStore, Line}
use agnostic_market.Orders.Store.{captured_total, refunded_so_far, return_refund_due}
use agnostic_market.Orders.Outcomes.{PlacementCommit}
use agnostic_market.Orders.Ledgers.{values-insert_new, find_placed-snoc}
use agnostic_market.Orders.Solvent.{IsSolvent, or_zero}

-- A committed placement, read order by order.
module _ (key : Text) (lines : List Line) (total : Cents) (s s' : OrderStore) (r : PlacedOrder)
    (fresh : lookup key s.placed_by_key ≡ none) (c : PlacementCommit key lines total s r s') where
  -- What was captured for a known order is captured for it still.
  pub captured_total-placed :
      (id : Text) (amount : Cents)
      → captured_total id s ≡ some amount
      → captured_total id s' ≡ some amount
  unfolding captured_total
  captured_total-placed id amount e = ground (
    arith,
    values-insert_new key r s.placed_by_key fresh,
    find_placed-snoc (normalize id) (values s.placed_by_key) r,
  )

  placement_frame :
      (id : Text)
      → (refunded_so_far id s' ≡ refunded_so_far id s)
        × (return_refund_due id s' ≡ return_refund_due id s)
  unfolding refunded_so_far return_refund_due
  placement_frame id = (rw c.after refl, rw c.after refl)

  captured_grows : (id : Text) → or_zero (captured_total id s) ≤ or_zero (captured_total id s')
  captured_grows id = elim (Option-cases (captured_total id s)) [
    | inl unknown ↦ rw unknown (omega arith)
    | inr (amount, known) ↦ rw (known, captured_total-placed id amount known) (omega arith)
  ]

  pub placement-IsSolvent : IsSolvent s → IsSolvent s'
  placement-IsSolvent h = record {
    within = λ id.
        rw ((placement_frame id).0, (placement_frame id).1)
          (omega (arith, h.within id, captured_grows id));
    voided = λ id. rw ((placement_frame id).0, c.after) (h.voided id);
    promised = λ id. rw ((placement_frame id).1, c.after) (h.promised id);
    kept = λ id. rw c.after (h.kept id);
  }
