-- ===== src/Orders/Growth.antt =====
-- What the store has recorded stays recorded, whatever calls follow.
use agnostic_market.Base.{List, [], ◌∷◌, ◌≡◌, inl, inr, true, some, none, arith}
use agnostic_market.Text.{Text, normalize}
use agnostic_market.Text.Laws.{text_eq_iff}
use agnostic_market.Dict.{Dict, lookup, insert, mem}
use agnostic_market.Dict.Laws.{lookup-insert}
use agnostic_market.Money.{Cents}
use agnostic_market.Orders.Types.{OrderStore}
use agnostic_market.Orders.Store.{captured_total}
use agnostic_market.Orders.Ledgers.{mem-add}
use agnostic_market.Orders.History.{
  Call, Change, placed, refunded, returned, voided, call, run, call-Stepped,
}
use agnostic_market.Orders.Conservation.Placements.{captured_total-placed}

-- Every entry of one ledger is in the other.
abbrev pub Keeps : {V : Type 0} → Dict V → Dict V → Type 0
Keeps {V} d d' = (k : Text) (v : V) → lookup k d ≡ some v → lookup k d' ≡ some v

insert-Keeps :
    {V : Type 0} (k : Text) (v : V) (d : Dict V) → lookup k d ≡ none → Keeps d (insert k v d)
insert-Keeps k v d fresh j w found = ground (arith, lookup-insert k j v d, text_eq_iff k j)

pub record Extends (s s' : OrderStore) : Type 0 where
  pub placements : Keeps s.placed_by_key s'.placed_by_key
  pub refunds : Keeps s.refunds_by_key s'.refunds_by_key
  pub returns : Keeps s.returns_by_key s'.returns_by_key
  pub cancels : Keeps s.cancels_by_key s'.cancels_by_key
  pub captured :
      (id : Text) (amount : Cents)
      → captured_total id s ≡ some amount
      → captured_total id s' ≡ some amount
  pub void : (id : Text) → mem id s.cancelled_ids ≡ true → mem id s'.cancelled_ids ≡ true

Extends-refl : (s : OrderStore) → Extends s s
Extends-refl s = record {
  placements = λ k v e. e;
  refunds = λ k v e. e;
  returns = λ k v e. e;
  cancels = λ k v e. e;
  captured = λ id amount e. e;
  void = λ id e. e;
}

Extends-trans : {s t u : OrderStore} → Extends s t → Extends t u → Extends s u
Extends-trans a b = record {
  placements = λ k v e. b.placements k v (a.placements k v e);
  refunds = λ k v e. b.refunds k v (a.refunds k v e);
  returns = λ k v e. b.returns k v (a.returns k v e);
  cancels = λ k v e. b.cancels k v (a.cancels k v e);
  captured = λ id amount e. b.captured id amount (a.captured id amount e);
  void = λ id e. b.void id (a.void id e);
}

Change-Extends : {s s' : OrderStore} → Change s s' → Extends s s'
unfolding captured_total
Change-Extends {s} {s'} (placed key lines total r fresh c) = record {
  placements = rw c.after (insert-Keeps key r s.placed_by_key fresh);
  refunds = rw c.after (λ k v e. e);
  returns = rw c.after (λ k v e. e);
  cancels = rw c.after (λ k v e. e);
  captured = captured_total-placed key lines total s s' r fresh c;
  void = rw c.after (λ id e. e);
}
Change-Extends {s} {s'} (refunded key order_id amount destination instrument r fresh c) = record {
  placements = rw c.after (λ k v e. e);
  refunds = rw c.after (insert-Keeps key r s.refunds_by_key fresh);
  returns = rw c.after (λ k v e. e);
  cancels = rw c.after (λ k v e. e);
  captured = rw c.after (λ id amount e. e);
  void = rw c.after (λ id e. e);
}
Change-Extends {s} {s'} (returned key order_id due destination r fresh c) = record {
  placements = rw c.after (λ k v e. e);
  refunds = rw c.after (λ k v e. e);
  returns = rw c.after (insert-Keeps key r s.returns_by_key fresh);
  cancels = rw c.after (λ k v e. e);
  captured = rw c.after (λ id amount e. e);
  void = rw c.after (λ id e. e);
}
Change-Extends {s} {s'} (voided key order_id r records guard new after) = record {
  placements = rw after (λ k v e. e);
  refunds = rw after (λ k v e. e);
  returns = rw after (λ k v e. e);
  cancels = rw after (elim new [
    | inl same ↦ rw same (λ k v e. e)
    | inr (fresh, more) ↦ rw more (insert-Keeps key r s.cancels_by_key fresh)
  ]);
  captured = rw after (λ id amount e. e);
  void = rw after (λ id e. ground (arith, mem-add (normalize order_id) id s.cancelled_ids));
}

pub call-Extends : (c : Call) (s : OrderStore) → Extends s (call c s)
call-Extends c s = elim (call-Stepped s c) [
  | inl same ↦ rw same (Extends-refl s)
  | inr change ↦ Change-Extends change
]

-- Whatever calls are made: every committed placement, refund, return and cancellation stays in
-- its ledger under its key, the amount captured for a known order never changes, and a voided
-- order stays voided.
pub run-Extends : (cs : List Call) (s : OrderStore) → Extends s (run cs s)
unfolding run
run-Extends [] s = Extends-refl s
run-Extends (c ∷ cs) s = Extends-trans (call-Extends c s) (run-Extends cs (call c s))
