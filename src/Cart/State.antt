-- ===== src/Cart/State.antt =====
-- `CartSessionState`: the cart as it is written to a checkpoint, and read back.
use agnostic_market.Base.{Bool, true, ◌&&◌, List, [], ◌∷◌, map, all, not, null, if◌then◌else◌}
use agnostic_market.Text.{Text, strip}
use agnostic_market.Dict.{Dict, insert, mem, values, keys}
use agnostic_market.Effect.{Result, ok, err, validation}
use agnostic_market.Orders.Types.{Line}
use agnostic_market.Cart.Types.{CartMutationRecord, CartStore}

-- A `CartMutationReceipt` is a key with its record.
pub record CartSessionState : Type 0 where
  pub lines : List Line
  pub mutation_receipts : List (Text × CartMutationRecord)

-- `len(xs) == len(set(xs))`
unfoldable pub unique : List Text → Bool
unique [] = true
unique (x ∷ xs) = not (mem x xs) && unique xs

-- `identifiers_are_unique`, and `idempotency_key_is_nonblank` of each receipt
unfoldable pub valid_state : CartSessionState → Bool
unfolding unique
valid_state state =
    all (λ k. not (null (strip k))) (keys state.mutation_receipts)
    && unique (map (λ l. l.sku) state.lines)
    && unique (keys state.mutation_receipts)

-- `{k: v for k, v in items}` on top of a dictionary
unfoldable pub insert_all : {V : Type 0} → List (Text × V) → Dict V → Dict V
insert_all [] d = d
insert_all ((k, v) ∷ items) d = insert_all items (insert k v d)

unfoldable pub from_state : CartSessionState → CartStore
unfolding insert_all
from_state state = record {
  lines = insert_all (map (λ l. (l.sku, l)) state.lines) [];
  mutations_by_key = insert_all state.mutation_receipts [];
}

unfoldable pub export_state : CartStore → Result CartSessionState
unfolding valid_state
export_state s =
    let state : CartSessionState = record {
      lines = values s.lines;
      mutation_receipts = s.mutations_by_key;
    } in
    if valid_state state then ok state else err validation

unfoldable pub restore_state : CartSessionState → CartStore → CartStore
unfolding from_state
restore_state state s = from_state state
