-- ===== src/Identity/Store.antt =====
-- `CallerIdentityStore`, and the predicates that decide what a caller may do with an order.
use agnostic_market.Base.{
  Bool, true, false, ◌||◌, Option, none, some, List, [], ◌∷◌, map, any, not, null, is_some,
  if◌then◌else◌,
}
use agnostic_market.Text.{Text, text_eq, normalize}
use agnostic_market.Dict.{mem, add}
use agnostic_market.Effect.{
  Result, ok, err, Action, ◌>>=◌, ◌>>◌, pure, gets, raise_if, modify, value_error,
}
use agnostic_market.Orders.Types.{OrderStore}
use agnostic_market.Orders.Store.{order_owner}
use agnostic_market.Identity.Guests.{GuestOrderScope, is_guest_order}

pub record BoundIdentity : Type 0 where
  pub customer_ref : Text
  pub masked_contact : Text

pub record CallerIdentityStore : Type 0 where
  pub bound : Option BoundIdentity
  pub granted_orders : List Text

abbrev pub new_identity : CallerIdentityStore
new_identity = record { bound = none; granted_orders = [] }

unfoldable pub bind : BoundIdentity → CallerIdentityStore → CallerIdentityStore
bind identity s = record s { bound = some identity }

-- `self._granted_orders.update(...)`
unfoldable pub add_all : List Text → List Text → List Text
add_all [] granted = granted
add_all (id ∷ ids) granted = add_all ids (add id granted)

unfoldable pub grant_orders : List Text → Action CallerIdentityStore (Unit {0})
unfolding add_all
grant_orders order_ids = do
  let normalized = map normalize order_ids
  raise_if (null normalized || any null normalized) value_error
  modify (λ s. record s { granted_orders = add_all normalized s.granted_orders })

unfoldable pub order_granted : Text → CallerIdentityStore → Bool
order_granted order_id s = mem (normalize order_id) s.granted_orders

unfoldable pub has_residual_order_authority : CallerIdentityStore → Bool
has_residual_order_authority s = not (null s.granted_orders)

unfoldable pub clear_identity : CallerIdentityStore → CallerIdentityStore
clear_identity s = record { bound = none; granted_orders = [] }

-- `owner is not None and owner == customer_ref`
unfoldable pub owns : Option Text → Text → Bool
owns owner customer = elim owner [ some o ↦ text_eq o customer | none ↦ false ]

unfoldable pub order_read_allowed :
    Text → OrderStore → GuestOrderScope → CallerIdentityStore → Result Bool
unfolding owns order_granted
order_read_allowed order_id store guests identity = elim (is_guest_order order_id store guests) [
  | err e ↦ err e
  | ok true ↦ ok true
  | ok false ↦ ok (elim identity.bound [
    | some bound ↦ owns (order_owner order_id store) bound.customer_ref
    | none ↦ order_granted order_id identity
  ])
]

-- `_order_session_or_bound_owner_allowed`
unfoldable pub session_or_owner_allowed :
    Text → OrderStore → GuestOrderScope → CallerIdentityStore → Result Bool
unfolding owns
session_or_owner_allowed order_id store guests identity =
    elim (is_guest_order order_id store guests) [
      | err e ↦ err e
      | ok true ↦ ok true
      | ok false ↦ ok (elim identity.bound [
        | some bound ↦ owns (order_owner order_id store) bound.customer_ref
        | none ↦ false
      ])
    ]

unfoldable pub order_mutation_allowed :
    Text → OrderStore → GuestOrderScope → CallerIdentityStore → Result Bool
unfolding session_or_owner_allowed
order_mutation_allowed order_id store guests identity =
    session_or_owner_allowed order_id store guests identity

unfoldable pub order_total_read_allowed :
    Text → OrderStore → GuestOrderScope → CallerIdentityStore → Result Bool
unfolding session_or_owner_allowed
order_total_read_allowed order_id store guests identity =
    session_or_owner_allowed order_id store guests identity

pub data Verdict : Type 0 where
  granted mismatch : Verdict

-- The directory's `match_contact` is a parameter, since it stands behind a port.
unfoldable pub try_grant_orders_by_contact :
    (Text → Option BoundIdentity)
    → Text
    → List Text
    → OrderStore
    → Action CallerIdentityStore Verdict
unfolding owns grant_orders
try_grant_orders_by_contact match_contact claim order_ids store = do
  raise_if (null order_ids) value_error
  current ← gets (λ s. s.bound)
  if is_some current then pure mismatch else elim (match_contact claim) [
    | none ↦ pure mismatch
    | some matched ↦
        if any (λ id. not (owns (order_owner id store) matched.customer_ref)) order_ids
        then pure mismatch
        else (grant_orders order_ids >> pure granted)
  ]
