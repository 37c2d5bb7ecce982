-- ===== src/Orders/Conservation/Refunds.antt =====
-- A committed refund keeps the money invariant.
use agnostic_market.Base.{◌+◌, ◌≤◌, ◌≡◌, refl, inl, inr, none, arith, if◌then◌else◌, Bool-cases}
use agnostic_market.Text.{Text, text_eq, normalize}
use agnostic_market.Text.Laws.{eq_of_text_eq}
use agnostic_market.Dict.{lookup, values}
use agnostic_market.Money.{Cents}
use agnostic_market.Orders.Types.{RefundRecord, OrderStore}
use agnostic_market.Orders.Store.{captured_total, refunded_so_far, return_refund_due}
use agnostic_market.Orders.Effects.{refund_record}
use agnostic_market.Orders.Outcomes.{RefundCommit}
use agnostic_market.Orders.Ledgers.{
  values-insert_new, refund_sum-snoc, captured_total-congr, refunded_so_far-congr,
  return_refund_due-congr, not_voided,
}
use agnostic_market.Orders.Solvent.{IsSolvent, or_zero}

-- A committed refund, read order by order.
module _ (key order_id : Text) (amount : Cents) (destination instrument : Text) (s s' : OrderStore)
    (r : RefundRecord) (fresh : lookup key s.refunds_by_key ≡ none)
    (c : RefundCommit key order_id amount destination instrument s r s') where
  refund_paid :
      (id : Text)
      → refunded_so_far id s'
        ≡ refunded_so_far id s + (if text_eq (normalize order_id) (normalize id) then amount else 0)
  unfolding refunded_so_far refund_record
  refund_paid id =
      rw
        (
          c.after,
          c.built,
          values-insert_new key
              (refund_record s.next_refund_seq order_id amount destination instrument)
              s.refunds_by_key fresh,
        )
        (refund_sum-snoc (normalize id) (values s.refunds_by_key) _)

  refund_frame :
      (id : Text)
      → (return_refund_due id s' ≡ return_refund_due id s)
        × (captured_total id s' ≡ captured_total id s)
  unfolding captured_total return_refund_due
  refund_frame id = (rw c.after refl, rw c.after refl)

  refund_fits :
      (id : Text)
      → normalize order_id ≡ normalize id
      → refunded_so_far id s + amount + return_refund_due id s ≤ or_zero (captured_total id s)
  refund_fits id e = ground (
    arith,
    refunded_so_far-congr order_id id s e,
    return_refund_due-congr order_id id s e,
    captured_total-congr order_id id s e,
  )

  pub refund-IsSolvent : IsSolvent s → IsSolvent s'
  refund-IsSolvent h = record {
    within = λ id. elim (Bool-cases (text_eq (normalize order_id) (normalize id))) [
      | inl same ↦
          rw (refund_paid id, (refund_frame id).0, (refund_frame id).1, same)
            (refund_fits id (eq_of_text_eq _ _ same))
      | inr other ↦
          rw (refund_paid id, (refund_frame id).0, (refund_frame id).1, other)
            (omega (arith, h.within id))
    ];
    voided = λ id v. elim (Bool-cases (text_eq (normalize order_id) (normalize id))) [
      | inl same ↦
          absurd
            (ground (arith, c.after, not_voided order_id s c.guard.live, eq_of_text_eq _ _ same))
      | inr other ↦ rw (refund_paid id, other) (ground (arith, c.after, h.voided id))
    ];
    promised = λ id. rw ((refund_frame id).0, c.after) (h.promised id);
    kept = λ id. rw c.after (h.kept id);
  }
