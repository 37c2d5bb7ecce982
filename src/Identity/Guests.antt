-- ===== src/Identity/Guests.antt =====
-- `GuestOrderScope`: the orders that one session has placed, and `OrderStore.is_guest_order`.
use agnostic_market.Base.{Bool, ◌&&◌, List, [], ◌∷◌, null, is_some, if◌then◌else◌}
use agnostic_market.Text.{Text, text_eq, normalize, strip}
use agnostic_market.Dict.{mem, add, values}
use agnostic_market.Effect.{Result, ok, err, Action, ◌>>◌, pure, raise_if, modify, value_error}
use agnostic_market.Orders.Types.{OrderStore, normalize_tenant_id}
use agnostic_market.Orders.Store.{find_placed}

pub record GuestOrderScope : Type 0 where
  pub tenant_id : Text
  pub session_id : Text
  pub order_refs : List Text

unfoldable pub new_scope : Text → Text → Result GuestOrderScope
new_scope tenant session = elim (normalize_tenant_id tenant) [
  | err e ↦ err e
  | ok normalized ↦
      if null (strip session)
      then err value_error
      else ok (record { tenant_id = normalized; session_id = strip session; order_refs = [] })
]

unfoldable pub record_ref : Text → Action GuestOrderScope (Unit {0})
record_ref order_id = do
  raise_if (null (normalize order_id)) value_error
  modify (λ s. record s { order_refs = add (normalize order_id) s.order_refs })

unfoldable pub contains : Text → GuestOrderScope → Bool
contains order_id scope = mem (normalize order_id) scope.order_refs

unfoldable pub clear_scope : GuestOrderScope → GuestOrderScope
clear_scope scope = record scope { order_refs = [] }

unfoldable pub record_refs : List Text → Action GuestOrderScope (Unit {0})
unfolding record_ref
record_refs [] = pure tt
record_refs (order_id ∷ ids) = do record_ref order_id; record_refs ids

-- `from_refs`
unfoldable pub from_refs : Text → Text → List Text → Result GuestOrderScope
unfolding new_scope record_refs
from_refs tenant session ids = elim (new_scope tenant session) [
  | err e ↦ err e
  | ok scope ↦
      let (answer, filled) = record_refs ids scope in
      elim answer [ ok done ↦ ok filled | err e ↦ err e ]
]

-- `restore_refs` replaces the references at once, or raises and keeps them.
unfoldable pub restore_refs : List Text → Action GuestOrderScope (Unit {0})
unfolding from_refs
restore_refs ids scope = elim (from_refs scope.tenant_id scope.session_id ids) [
  | ok restored ↦ (ok tt, record scope { order_refs = restored.order_refs })
  | err e ↦ (err e, scope)
]

-- `is_guest_order`, with `_require_guest_scope`
unfoldable pub is_guest_order : Text → OrderStore → GuestOrderScope → Result Bool
unfolding contains
is_guest_order order_id s scope =
    if text_eq scope.tenant_id s.tenant_id
    then ok (
        contains (normalize order_id) scope
        && is_some (find_placed (normalize order_id) (values s.placed_by_key)))
    else err value_error
