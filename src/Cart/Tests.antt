-- ===== src/Cart/Tests.antt =====
-- A cart with one line, and the theorems at it.
use agnostic_market.Base.{◌≡◌, refl, [], ◌∷◌, some, pos, true, if◌then◌else◌}
use agnostic_market.Text.{codes, text_eq, strip, rstrip, lstrip, is_space}
use agnostic_market.Dict.{lookup, insert, erase, mem}
use agnostic_market.Effect.{ok}
use agnostic_market.Money.{validate_usd, of_cents}
use agnostic_market.Receipts.{committed, classify_receipt}
use agnostic_market.Orders.Types.{Line, valid_line}
use agnostic_market.Cart.Types.{
  add, set_quantity, operation_eq, int_eq, quantity_eq, is_coherent, valid_mutation,
  mutation_matches, CartMutationRecord, CartStore,
}
use agnostic_market.Cart.Store.{
  quantity_of, final_of, mutation_record, line_of, commit_mutation, pre_of, new_mutation, priced,
  apply_confirmed_mutation, mutation_receipt,
}
use agnostic_market.Cart.State.{
  CartSessionState, unique, valid_state, insert_all, from_state, export_state, restore_state,
}
use agnostic_market.Cart.Roundtrip.{export_state-from_state}
use agnostic_market.Cart.Once.{
  Confirmation, apply, receipt, apply_all, apply_confirmed_mutation-replay,
  apply_confirmed_mutation-exact,
}

program : Unit {0}
unfolding text_eq strip rstrip lstrip is_space lookup insert erase validate_usd classify_receipt
    valid_line operation_eq int_eq quantity_eq is_coherent valid_mutation mutation_matches
    quantity_of final_of mutation_record line_of commit_mutation pre_of new_mutation priced
    apply_confirmed_mutation mutation_receipt apply_all unique valid_state insert_all from_state
    export_state restore_state mem
program = tt

abbrev jackets : Line
jackets = record { sku = codes "SKU-1"; name = codes "jacket"; price_usd = 5000; quantity = 1 }

abbrev cart : CartStore
cart = record { lines = (codes "SKU-1", jackets) ∷ []; mutations_by_key = [] }

abbrev two_more : Confirmation
two_more = record {
  key = codes "k-1";
  operation = add;
  sku = codes "SKU-1";
  name = codes "jacket";
  price = of_cents 5000;
  quantity = some (pos 2);
  pre = pos 1;
}

abbrev none_left : Confirmation
none_left = record {
  key = codes "k-2";
  operation = set_quantity;
  sku = codes "SKU-1";
  name = codes "jacket";
  price = of_cents 5000;
  quantity = some (pos 0);
  pre = pos 3;
}

abbrev added : CartMutationRecord
added = record {
  operation = add;
  sku = codes "SKU-1";
  name = codes "jacket";
  price_usd = 5000;
  quantity = some 2;
  pre_confirm_quantity = 1;
  previous_quantity = 1;
  final_quantity = 3;
  changed = true;
}

abbrev fuller : CartStore
fuller = (apply two_more cart).1

applies : apply two_more cart ≡ (ok added, fuller)
unfolding program
applies = refl

apply_confirmed_mutation-replay_example :
    (apply two_more (apply_all (none_left ∷ []) fuller)
      ≡ (ok added, apply_all (none_left ∷ []) fuller))
    × (receipt two_more (apply_all (none_left ∷ []) fuller)
        ≡ (ok (committed added), apply_all (none_left ∷ []) fuller))
apply_confirmed_mutation-replay_example =
    apply_confirmed_mutation-replay two_more cart fuller added (none_left ∷ []) applies

apply_confirmed_mutation-exact_example :
    (quantity_of (codes "SKU-1") fuller ≡ 3)
    × (final_of add (some (pos 2)) (quantity_of (codes "SKU-1") cart) ≡ ok 3)
    × (1 ≡ quantity_of (codes "SKU-1") cart)
    × (valid_mutation added ≡ true)
    × (lookup (codes "SKU-2") fuller.lines ≡ (
        if text_eq (codes "SKU-1") (codes "SKU-2")
        then lookup (codes "SKU-1") fuller.lines
        else lookup (codes "SKU-2") cart.lines))
unfolding program
apply_confirmed_mutation-exact_example =
    apply_confirmed_mutation-exact two_more cart fuller added (codes "SKU-2") (refl, tt) refl
      applies

abbrev saved : CartSessionState
saved = record {
  lines = record jackets { quantity = 3 } ∷ [];
  mutation_receipts = (codes "k-1", added) ∷ [];
}

exports : export_state fuller ≡ ok saved
unfolding program
exports = refl

export_state-from_state_example : (from_state saved ≡ fuller) × (restore_state saved cart ≡ fuller)
unfolding program
export_state-from_state_example =
    export_state-from_state fuller cart saved (refl, tt) (refl, tt) (refl, tt) exports
