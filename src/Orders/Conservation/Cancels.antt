-- ===== src/Orders/Conservation/Cancels.antt =====
-- A cancellation keeps the money invariant, also where its record is refused.
use agnostic_market.Base.{◌≡◌, refl, sym, ◌∙◌, inl, inr, true, ◌||◌, arith, Bool-cases}
use agnostic_market.Text.{Text, text_eq, normalize}
use agnostic_market.Text.Laws.{eq_of_text_eq, normalize_idem}
use agnostic_market.Dict.{Dict, mem, add}
use agnostic_market.Money.{Cents}
use agnostic_market.Orders.Types.{CancelRecord, OrderStore}
use agnostic_market.Orders.Store.{captured_total, refunded_so_far, return_refund_due}
use agnostic_market.Orders.Guards.{CancelGuard}
use agnostic_market.Orders.Ledgers.{mem-add, refunded_so_far-congr, cancellable_open}
use agnostic_market.Orders.Solvent.{IsSolvent, Fulfilled}

-- Marking an order as voided, read order by order.
module _ (order_id : Text) (s s' : OrderStore) (captured : Cents)
    (guard : CancelGuard (normalize order_id) s captured) (records : Dict CancelRecord)
    (after : s' ≡ record s {
      cancelled_ids = add (normalize order_id) s.cancelled_ids;
      cancels_by_key = records;
    }) where
  cancel_frame :
      (id : Text)
      → (refunded_so_far id s' ≡ refunded_so_far id s)
        × (return_refund_due id s' ≡ return_refund_due id s)
        × (captured_total id s' ≡ captured_total id s)
  unfolding refunded_so_far return_refund_due captured_total
  cancel_frame id = (rw after refl, rw after refl, rw after refl)

  void_id :
      (id : Text)
      → mem (normalize id) s'.cancelled_ids
        ≡ text_eq (normalize order_id) (normalize id) || mem (normalize id) s.cancelled_ids
  void_id id = rw after (mem-add (normalize order_id) (normalize id) s.cancelled_ids)

  unpaid :
      (id : Text) → text_eq (normalize order_id) (normalize id) ≡ true → refunded_so_far id s ≡ 0
  unpaid id same =
      sym (
        refunded_so_far-congr (normalize order_id) id s
          (normalize_idem order_id ∙ eq_of_text_eq _ _ same))
      ∙ guard.unrefunded

  not-Fulfilled :
      (id : Text)
      → text_eq (normalize order_id) (normalize id) ≡ true
      → ¬ (Fulfilled (normalize id) s)
  not-Fulfilled id same =
      rw (normalize_idem order_id ∙ eq_of_text_eq _ _ same) at
        (cancellable_open (normalize order_id) s guard.cancellable)

  pub void-IsSolvent : IsSolvent s → IsSolvent s'
  void-IsSolvent h = record {
    within = λ id. rw ((cancel_frame id).0, (cancel_frame id).1, (cancel_frame id).2) (h.within id);
    voided = λ id v. elim (Bool-cases (text_eq (normalize order_id) (normalize id))) [
      | inl same ↦ rw (cancel_frame id).0 (unpaid id same)
      | inr other ↦ rw (cancel_frame id).0 (ground (arith, void_id id, h.voided id))
    ];
    promised = λ id. rw ((cancel_frame id).1, after) (h.promised id);
    kept = λ id f. elim (Bool-cases (text_eq (normalize order_id) (normalize id))) [
      | inl same ↦ absurd (not-Fulfilled id same (rw after at f))
      | inr other ↦ rw (void_id id, other) (h.kept id (rw after at f))
    ];
  }
