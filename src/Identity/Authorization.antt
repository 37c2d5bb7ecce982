-- ===== src/Identity/Authorization.antt =====
-- What a grant allows, and what a binding allows.
use agnostic_market.Base.{
  All, ◌≢◌, ◌≡◌, refl, ap, ◌⊎◌, inl, inr, true, false, ◌||◌, Option, none, some, List, [], ◌∷◌,
  ◌++◌, map, arith, any, not, null, Bool-cases, Option-cases,
}
use agnostic_market.Text.{Text, text_eq, normalize}
use agnostic_market.Text.Laws.{eq_of_text_eq, text_eq_iff}
use agnostic_market.Dict.{mem, add}
use agnostic_market.Effect.{ok}
use agnostic_market.Orders.Types.{OrderStore}
use agnostic_market.Orders.Store.{order_owner}
use agnostic_market.Identity.Guests.{GuestOrderScope, is_guest_order}
use agnostic_market.Identity.Store.{
  BoundIdentity, CallerIdentityStore, add_all, grant_orders, order_granted, owns,
  order_read_allowed, session_or_owner_allowed, order_mutation_allowed, order_total_read_allowed,
  granted, try_grant_orders_by_contact,
}

mem-append : (k : Text) (xs ys : List Text) → mem k (xs ++ ys) ≡ (mem k xs || mem k ys)
unfolding mem
mem-append k [] ys = refl
mem-append k (x ∷ xs) ys = ground (arith, mem-append k xs ys)

mem-add : (k j : Text) (xs : List Text) → mem k (add j xs) ≡ (mem k xs || text_eq j k)
unfolding mem add
mem-add k j xs = ground (arith, mem-append k xs (j ∷ []), text_eq_iff j k)

mem-add_all :
    (k : Text) (ids held : List Text) → mem k (add_all ids held) ≡ (mem k held || mem k ids)
unfolding mem add_all
mem-add_all k [] held = ground arith
mem-add_all k (id ∷ ids) held = ground (arith, mem-add_all k ids (add id held), mem-add k id held)

-- Who may act on an order.
abbrev pub IsEntitled : Text → OrderStore → GuestOrderScope → CallerIdentityStore → Type 0
IsEntitled order_id store guests identity =
    (is_guest_order order_id store guests ≡ ok true)
    ⊎ ((bound : BoundIdentity) × (identity.bound ≡ some bound)
        × (order_owner order_id store ≡ some bound.customer_ref))

owns-some :
    (owner : Option Text) (customer : Text) → owns owner customer ≡ true → owner ≡ some customer
unfolding owns
owns-some (some o) customer same = ap some (eq_of_text_eq o customer same)
owns-some none customer same = ground arith

any-owned :
    (customer : Text) (ids : List Text) (store : OrderStore)
    → any (λ id. not (owns (order_owner id store) customer)) ids ≡ false
    → All (λ id. order_owner id store ≡ some customer) ids
any-owned customer [] store none_other = tt
any-owned customer (id ∷ ids) store none_other = (
  owns-some (order_owner id store) customer (ground (arith, none_other)),
  any-owned customer ids store (ground (arith, none_other)),
)

-- Where a contact claim was granted, the session was not bound, the claim matched a customer who
-- owns every order asked for, and exactly those orders are granted in addition. In every other
-- case nothing is granted: the answer is a mismatch or an error, and the session stays as it was.
pub try_grant_orders_by_contact-atomic :
    (match_contact : Text → Option BoundIdentity) (claim : Text) (ids : List Text)
    (store : OrderStore) (identity : CallerIdentityStore) (order_id : Text)
    → let (answer, after) = try_grant_orders_by_contact match_contact claim ids store identity in
      ((answer ≡ ok granted)
        × (identity.bound ≡ none)
        × (after.bound ≡ none)
        × ((matched : BoundIdentity) × (match_contact claim ≡ some matched)
            × All (λ id. order_owner id store ≡ some matched.customer_ref) ids)
        × (order_granted order_id after
            ≡ (order_granted order_id identity || mem (normalize order_id) (map normalize ids))))
      ⊎ ((answer ≢ ok granted) × (after ≡ identity))
unfolding try_grant_orders_by_contact grant_orders order_granted
try_grant_orders_by_contact-atomic match_contact claim ids store identity order_id =
    elim (Bool-cases (null ids)) [
      | inl empty ↦ rw empty (inr (λ same. ground arith, refl))
      | inr some_ids ↦ elim (Option-cases identity.bound) [
        | inr (bound, is_bound) ↦ rw (some_ids, is_bound) (inr (λ same. ground arith, refl))
        | inl unbound ↦ elim (Option-cases (match_contact claim)) [
          | inl no_match ↦ rw (some_ids, unbound, no_match) (inr (λ same. ground arith, refl))
          | inr (matched, found) ↦
              elim (Bool-cases
                (any (λ id. not (owns (order_owner id store) matched.customer_ref)) ids)) [
                  | inl other ↦
                      rw (some_ids, unbound, found, other) (inr (λ same. ground arith, refl))
                  | inr all_owned ↦
                      elim (Bool-cases (null (map normalize ids) || any null (map normalize ids))) [
                        | inl blank ↦
                            rw (some_ids, unbound, found, all_owned, blank)
                              (inr (λ same. ground arith, refl))
                        | inr named ↦
                            rw (some_ids, unbound, found, all_owned, named)
                              (inl (
                                refl,
                                refl,
                                refl,
                                (matched, refl, any-owned matched.customer_ref ids store all_owned),
                                mem-add_all (normalize order_id) (map normalize ids)
                                    identity.granted_orders,
                              ))
                      ]
                ]
        ]
      ]
    ]

-- A granted order may be read, and nothing else: for every order of a claim that was granted, and
-- that was not placed in this session, the session may now read it, but may neither act on it nor
-- hear its total.
pub grant-reads_only :
    (match_contact : Text → Option BoundIdentity) (claim : Text) (ids : List Text)
    (store : OrderStore) (guests : GuestOrderScope) (identity after : CallerIdentityStore)
    (order_id : Text)
    → try_grant_orders_by_contact match_contact claim ids store identity ≡ (ok granted, after)
    → mem (normalize order_id) (map normalize ids) ≡ true
    → is_guest_order order_id store guests ≡ ok false
    → (order_read_allowed order_id store guests after ≡ ok true)
      × (order_mutation_allowed order_id store guests after ≡ ok false)
      × (order_total_read_allowed order_id store guests after ≡ ok false)
unfolding order_read_allowed order_mutation_allowed order_total_read_allowed
    session_or_owner_allowed
grant-reads_only match_contact claim ids store guests identity after order_id answer asked
      elsewhere =
    let state : (try_grant_orders_by_contact match_contact claim ids store identity).1 ≡ after =
      ap (λ r. r.1) answer in
    elim (try_grant_orders_by_contact-atomic match_contact claim ids store identity order_id) [
      | inr (refused, same) ↦ ground (arith, answer, refused)
      | inl (given, unbound, still, owned, reads) ↦
          let free : after.bound ≡ none = ground (arith, state, still) in
          let read : order_granted order_id after ≡ true = ground (arith, state, reads, asked) in
          (
            ground (arith, elsewhere, free, read),
            ground (arith, elsewhere, free),
            ground (arith, elsewhere, free),
          )
    ]
