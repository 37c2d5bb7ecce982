-- ===== src/Cart/Types.antt =====
-- The records of commerce/cart.py. Amounts are cents that have been checked.
use agnostic_market.Base.{
  ℕ, ◌+◌, Bool, true, false, ◌&&◌, Option, none, some, [], ℤ, pos, negsuc, leb, not, null, ◌==◌,
  is_some, if◌then◌else◌,
}
use agnostic_market.Text.{Text, text_eq}
use agnostic_market.Dict.{Dict}
use agnostic_market.Money.{Cents}
use agnostic_market.Orders.Types.{Line}

pub data CartOperation : Type 0 where
  add remove set_quantity : CartOperation

unfoldable pub operation_eq : CartOperation → CartOperation → Bool
operation_eq add add = true
operation_eq remove remove = true
operation_eq set_quantity set_quantity = true
operation_eq _ _ = false

-- The Boolean `changed` is the outcome: `applied` or `unchanged`.
pub record CartMutationRecord : Type 0 where
  pub operation : CartOperation
  pub sku : Text
  pub name : Text
  pub price_usd : Cents
  pub quantity : Option ℕ
  pub pre_confirm_quantity : ℕ
  pub previous_quantity : ℕ
  pub final_quantity : ℕ
  pub changed : Bool

-- `result_is_coherent`
unfoldable pub is_coherent : CartMutationRecord → Bool
is_coherent r =
    (elim r.operation [
      | remove ↦ not (is_some r.quantity) && r.final_quantity == 0
      | add ↦ elim r.quantity [
        | some n ↦ leb 1 n && r.final_quantity == r.previous_quantity + n
        | none ↦ false
      ]
      | set_quantity ↦ elim r.quantity [ some n ↦ r.final_quantity == n | none ↦ false ]
    ])
    && (if r.changed
        then not (r.previous_quantity == r.final_quantity)
        else r.previous_quantity == r.final_quantity)

unfoldable pub valid_mutation : CartMutationRecord → Bool
unfolding is_coherent
valid_mutation r = not (null r.sku) && not (null r.name) && is_coherent r

-- What a caller has confirmed.
pub record Mutation : Type 0 where
  pub operation : CartOperation
  pub sku : Text
  pub name : Text
  pub price_usd : Cents
  pub quantity : Option ℤ
  pub pre_confirm_quantity : ℤ

unfoldable pub int_eq : ℕ → ℤ → Bool
int_eq n (pos m) = n == m
int_eq n (negsuc _) = false

unfoldable pub quantity_eq : Option ℕ → Option ℤ → Bool
unfolding int_eq
quantity_eq none none = true
quantity_eq (some n) (some q) = int_eq n q
quantity_eq _ _ = false

-- `_mutation_matches`
unfoldable pub mutation_matches : CartMutationRecord → Mutation → Bool
unfolding operation_eq quantity_eq int_eq
mutation_matches r m =
    operation_eq r.operation m.operation
    && text_eq r.sku m.sku
    && text_eq r.name m.name
    && r.price_usd == m.price_usd
    && quantity_eq r.quantity m.quantity
    && int_eq r.pre_confirm_quantity m.pre_confirm_quantity

pub record CartStore : Type 0 where
  pub lines : Dict Line
  pub mutations_by_key : Dict CartMutationRecord

abbrev pub empty_cart : CartStore
empty_cart = record { lines = []; mutations_by_key = [] }
