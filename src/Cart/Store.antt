-- ===== src/Cart/Store.antt =====
-- `CartStore`.
use agnostic_market.Base.{
  ℕ, ◌+◌, ◌*◌, Bool, ◌&&◌, Option, none, some, List, [], ℤ, pos, negsuc, not, null, ◌==◌, is_some,
  length, sum_of, if◌then◌else◌,
}
use agnostic_market.Text.{Text, strip}
use agnostic_market.Dict.{lookup, insert, erase, values}
use agnostic_market.Effect.{
  Result, ok, err, Action, ◌>>=◌, ◌>>◌, pure, raise, gets, or_raise, raise_if, modify, replay,
  validation, cart_mutation,
}
use agnostic_market.Money.{Decimal, Cents, validate_usd}
use agnostic_market.Receipts.{ReceiptLookup, classify_receipt}
use agnostic_market.Orders.Types.{Line, valid_line}
use agnostic_market.Cart.Types.{
  CartOperation, add, remove, set_quantity, CartMutationRecord, valid_mutation, Mutation,
  mutation_matches, CartStore,
}

-- `current.quantity if current is not None else 0`
unfoldable pub quantity_of : Text → CartStore → ℕ
quantity_of sku s = elim (lookup sku s.lines) [ some line ↦ line.quantity | none ↦ 0 ]

-- `add_item`, at a quantity that is a count
unfoldable pub add_item : Text → Text → Cents → ℕ → Action CartStore Line
unfolding quantity_of
add_item sku name price quantity = do
  before ← gets (quantity_of sku)
  let line : Line = record {
    sku = sku;
    name = name;
    price_usd = price;
    quantity = before + quantity;
  }
  raise_if (not (valid_line line)) validation
  modify (λ s. record s { lines = insert sku line s.lines })
  pure line

-- `set_quantity`: a quantity of at most zero removes the line.
unfoldable pub set_line_quantity : Text → ℤ → Action CartStore (Option Line)
set_line_quantity sku (negsuc _) = do
  modify (λ s. record s { lines = erase sku s.lines })
  pure none
set_line_quantity sku (pos quantity) = do
  found ← gets (λ s. lookup sku s.lines)
  let line : Option Line = elim found [
    | some l ↦ some (record l { quantity = quantity })
    | none ↦ none
  ]
  modify (λ s. record s {
    lines =
        if quantity == 0
        then erase sku s.lines
        else elim line [ some l ↦ insert sku l s.lines | none ↦ s.lines ];
  })
  pure (if quantity == 0 then none else line)

unfoldable pub remove_item : Text → Action CartStore Bool
remove_item sku = do
  found ← gets (λ s. lookup sku s.lines)
  modify (λ s. record s { lines = erase sku s.lines })
  pure (is_some found)

-- The quantity that a confirmed mutation leaves, where its shape is right.
unfoldable pub final_of : CartOperation → Option ℤ → ℕ → Result ℕ
final_of add (some (pos n)) previous = if n == 0 then err cart_mutation else ok (previous + n)
final_of remove none previous = ok 0
final_of set_quantity (some (pos n)) previous = ok n
final_of _ _ _ = err cart_mutation

abbrev pub nat_quantity : Option ℤ → Option ℕ
nat_quantity (some (pos n)) = some n
nat_quantity _ = none

unfoldable pub mutation_record : Mutation → ℕ → ℕ → ℕ → CartMutationRecord
mutation_record m pre previous final = record {
  operation = m.operation;
  sku = m.sku;
  name = m.name;
  price_usd = m.price_usd;
  quantity = nat_quantity m.quantity;
  pre_confirm_quantity = pre;
  previous_quantity = previous;
  final_quantity = final;
  changed = not (previous == final);
}

unfoldable pub line_of : Mutation → ℕ → Line
line_of m final = record { sku = m.sku; name = m.name; price_usd = m.price_usd; quantity = final }

-- The last part of `apply_confirmed_mutation`: the line, then the ledger.
unfoldable pub commit_mutation :
    Text → Mutation → CartMutationRecord → Action CartStore CartMutationRecord
unfolding line_of
commit_mutation key m r = do
  raise_if (not (r.final_quantity == 0) && not (valid_line (line_of m r.final_quantity))) validation
  modify (λ s. record s {
    lines =
        if r.final_quantity == 0
        then erase m.sku s.lines
        else insert m.sku (line_of m r.final_quantity) s.lines;
    mutations_by_key = insert key r s.mutations_by_key;
  })
  pure r

-- `pre_confirm_quantity` has to be at least zero to be recorded.
unfoldable pub pre_of : ℤ → Option ℕ
pre_of (pos n) = some n
pre_of (negsuc _) = none

unfoldable pub new_mutation : Text → Mutation → Action CartStore CartMutationRecord
unfolding quantity_of final_of mutation_record commit_mutation pre_of
new_mutation key m = do
  previous ← gets (quantity_of m.sku)
  elim (final_of m.operation m.quantity previous) [
    | err e ↦ raise e
    | ok final ↦ elim (pre_of m.pre_confirm_quantity) [
      | none ↦ raise validation
      | some pre ↦
          if valid_mutation (mutation_record m pre previous final)
          then commit_mutation key m (mutation_record m pre previous final)
          else raise validation
    ]
  ]

unfoldable pub priced : CartOperation → Text → Text → Cents → Option ℤ → ℤ → Mutation
priced operation sku name price quantity pre = record {
  operation = operation;
  sku = sku;
  name = name;
  price_usd = price;
  quantity = quantity;
  pre_confirm_quantity = pre;
}

unfoldable pub apply_confirmed_mutation :
    Text
    → CartOperation
    → Text
    → Text
    → Decimal
    → Option ℤ
    → ℤ
    → Action CartStore CartMutationRecord
unfolding new_mutation priced
apply_confirmed_mutation key operation sku name price quantity pre = do
  raise_if (null (strip key)) cart_mutation
  checked ← or_raise (validate_usd price) validation
  let m = priced operation sku name checked quantity pre
  existing ← gets (λ s. lookup key s.mutations_by_key)
  elim existing [
    | some r ↦ replay (mutation_matches r m) r cart_mutation
    | none ↦ new_mutation key m
  ]

unfoldable pub mutation_receipt :
    Text
    → CartOperation
    → Text
    → Text
    → Decimal
    → Option ℤ
    → ℤ
    → Action CartStore (ReceiptLookup CartMutationRecord)
unfolding priced
mutation_receipt key operation sku name price quantity pre = do
  raise_if (null (strip key)) cart_mutation
  checked ← or_raise (validate_usd price) validation
  existing ← gets (λ s. lookup key s.mutations_by_key)
  pure (
      classify_receipt existing
        (λ r. mutation_matches r (priced operation sku name checked quantity pre)))

-- `view` and `snapshot`
unfoldable pub view : CartStore → List Line
view s = values s.lines

unfoldable pub is_empty : CartStore → Bool
is_empty s = null s.lines

unfoldable pub cart_total : CartStore → Cents
cart_total s = sum_of (λ line. line.price_usd * line.quantity) (values s.lines)

unfoldable pub mutation_count : CartStore → ℕ
mutation_count s = length s.mutations_by_key

unfoldable pub line_count : CartStore → ℕ
line_count s = length s.lines

unfoldable pub clear_cart : CartStore → CartStore
clear_cart s = record { lines = []; mutations_by_key = [] }
