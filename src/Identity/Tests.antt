-- ===== src/Identity/Tests.antt =====
-- A session at a store of two orders, and the theorems at it.
use agnostic_market.Base.{
  ◌≡◌, ◌≢◌, ◌⊎◌, ◌||◌, refl, All, Option, none, some, List, [], ◌∷◌, map, true, false,
}
use agnostic_market.Text.{
  Text, codes, text_eq, normalize, strip, upper, rstrip, lstrip, is_space, to_upper,
}
use agnostic_market.Dict.{lookup, mem, add}
use agnostic_market.Effect.{ok}
use agnostic_market.Orders.Store.{find_placed, order_owner}
use agnostic_market.Orders.Tests.{store}
use agnostic_market.Identity.Guests.{GuestOrderScope, is_guest_order, contains}
use agnostic_market.Identity.Store.{
  BoundIdentity, CallerIdentityStore, new_identity, bind, add_all, grant_orders, order_granted,
  owns, order_read_allowed, session_or_owner_allowed, order_mutation_allowed,
  order_total_read_allowed, granted, try_grant_orders_by_contact,
}
use agnostic_market.Identity.Authorization.{try_grant_orders_by_contact-atomic, grant-reads_only}

program : Unit {0}
unfolding text_eq normalize strip upper rstrip lstrip is_space to_upper lookup mem add find_placed
    order_owner is_guest_order contains bind add_all grant_orders order_granted owns
    order_read_allowed session_or_owner_allowed order_mutation_allowed order_total_read_allowed
    try_grant_orders_by_contact
program = tt

abbrev customer : BoundIdentity
customer = record { customer_ref = codes "CUST-001"; masked_contact = codes "ends in 42" }

abbrev directory : Text → Option BoundIdentity
directory claim = some customer

abbrev guests : GuestOrderScope
guests = record { tenant_id = codes "shop"; session_id = codes "s-1"; order_refs = [] }

abbrev caller : CallerIdentityStore
caller = record { bound = some customer; granted_orders = [] }

abbrev visitor : CallerIdentityStore
visitor = record { bound = none; granted_orders = codes "ORD-1002" ∷ [] }

abbrev both : List Text
both = codes " ord-1001" ∷ codes "ORD-1002" ∷ []

abbrev after_grant : CallerIdentityStore
after_grant = (try_grant_orders_by_contact directory (codes "5550142") both store new_identity).1

claim_granted :
    try_grant_orders_by_contact directory (codes "5550142") both store new_identity
    ≡ (ok granted, after_grant)
unfolding program
claim_granted = refl

asked : mem (normalize (codes "ORD-1001")) (map normalize both) ≡ true
unfolding program
asked = refl

elsewhere : is_guest_order (codes "ORD-1001") store guests ≡ ok false
unfolding program
elsewhere = refl

grant-reads_only_example :
    (order_read_allowed (codes "ORD-1001") store guests after_grant ≡ ok true)
    × (order_mutation_allowed (codes "ORD-1001") store guests after_grant ≡ ok false)
    × (order_total_read_allowed (codes "ORD-1001") store guests after_grant ≡ ok false)
grant-reads_only_example =
    grant-reads_only directory (codes "5550142") both store guests new_identity after_grant
      (codes "ORD-1001") claim_granted asked elsewhere

try_grant_orders_by_contact-atomic_example :
    let (answer, after) =
      try_grant_orders_by_contact directory (codes "5550142") both store visitor in
    ((answer ≡ ok granted)
      × (visitor.bound ≡ none)
      × (after.bound ≡ none)
      × ((matched : BoundIdentity) × (directory (codes "5550142") ≡ some matched)
          × All (λ id. order_owner id store ≡ some matched.customer_ref) both)
      × (order_granted (codes "ORD-1001") after ≡ (
          order_granted (codes "ORD-1001") visitor
          || mem (normalize (codes "ORD-1001")) (map normalize both))))
    ⊎ ((answer ≢ ok granted) × (after ≡ visitor))
try_grant_orders_by_contact-atomic_example =
    try_grant_orders_by_contact-atomic directory (codes "5550142") both store visitor
      (codes "ORD-1001")
