-- ===== src/Orders/Conservation/Returns.antt =====
-- A committed return keeps the money invariant.
use agnostic_market.Base.{
  ◌+◌, ◌≤◌, ◌≡◌, refl, ◌∙◌, inl, inr, none, arith, if◌then◌else◌, Bool-cases,
}
use agnostic_market.Text.{Text, text_eq, normalize}
use agnostic_market.Text.Laws.{eq_of_text_eq, normalize_idem}
use agnostic_market.Dict.{lookup, values}
use native.Mathlib.Nat.{add-zero}
use agnostic_market.Money.{Cents}
use agnostic_market.Orders.Types.{ReturnRecord, OrderStore}
use agnostic_market.Orders.Store.{
  captured_total, refunded_so_far, return_refund_due, return_for_order,
}
use agnostic_market.Orders.Effects.{return_record}
use agnostic_market.Orders.Outcomes.{ReturnCommit}
use agnostic_market.Orders.Ledgers.{
  values-insert_new, return_sum-snoc, return_sum-none, captured_total-congr, refunded_so_far-congr,
  return_refund_due-congr, Fulfilled-entry,
}
use agnostic_market.Orders.Solvent.{IsSolvent, Fulfilled, or_zero}

-- A committed return, read order by order.
module _ (key order_id : Text) (due : Cents) (destination : Text) (s s' : OrderStore)
    (r : ReturnRecord) (fresh : lookup key s.returns_by_key ≡ none)
    (c : ReturnCommit key order_id due destination s r s') where
  return_due :
      (id : Text)
      → return_refund_due id s'
        ≡ return_refund_due id s + (if text_eq (normalize order_id) (normalize id) then due else 0)
  unfolding return_refund_due return_record
  return_due id =
      rw
        (
          c.after,
          c.built,
          values-insert_new key
              (return_record s.next_return_seq (normalize order_id) c.summary due destination)
              s.returns_by_key fresh,
        )
        (return_sum-snoc (normalize id) (values s.returns_by_key) _)

  return_frame :
      (id : Text)
      → (refunded_so_far id s' ≡ refunded_so_far id s)
        × (captured_total id s' ≡ captured_total id s)
  unfolding captured_total refunded_so_far
  return_frame id = (rw c.after refl, rw c.after refl)

  nothing_due : return_refund_due (normalize order_id) s ≡ 0
  unfolding return_for_order return_refund_due
  nothing_due = return_sum-none _ _ c.guard.first

  return_fits :
      (id : Text)
      → normalize order_id ≡ normalize id
      → refunded_so_far id s + (return_refund_due id s + due) ≤ or_zero (captured_total id s)
  return_fits id e =
      let same = normalize_idem order_id ∙ e in
      ground (
        arith,
        nothing_due,
        refunded_so_far-congr (normalize order_id) id s same,
        return_refund_due-congr (normalize order_id) id s same,
        captured_total-congr (normalize order_id) id s same,
      )

  Fulfilled-at : (id : Text) → normalize order_id ≡ normalize id → Fulfilled (normalize id) s
  Fulfilled-at id e =
      rw (normalize_idem order_id ∙ e) at
        (Fulfilled-entry (normalize order_id) s c.guard.status c.guard.reached c.guard.fulfilled).0

  pub return-IsSolvent : IsSolvent s → IsSolvent s'
  return-IsSolvent h = record {
    within = λ id. elim (Bool-cases (text_eq (normalize order_id) (normalize id))) [
      | inl same ↦
          rw (return_due id, (return_frame id).0, (return_frame id).1, same)
            (return_fits id (eq_of_text_eq _ _ same))
      | inr other ↦
          rw (return_due id, (return_frame id).0, (return_frame id).1, other)
            (omega (arith, h.within id))
    ];
    voided = λ id. rw ((return_frame id).0, c.after) (h.voided id);
    promised = λ id. elim (Bool-cases (text_eq (normalize order_id) (normalize id))) [
      | inl same ↦ inr (rw c.after (Fulfilled-at id (eq_of_text_eq _ _ same)))
      | inr other ↦ rw (return_due id, c.after, other) (rw add-zero (h.promised id))
    ];
    kept = λ id. rw c.after (h.kept id);
  }
