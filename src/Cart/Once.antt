-- ===== src/Cart/Once.antt =====
-- What a confirmed mutation leaves in the cart, and that it is not applied a second time.
use agnostic_market.Base.{
  ℕ, ◌≡◌, refl, ap, subst, ◌⊎◌, inl, inr, true, false, Option, none, some, List, [], ◌∷◌, ℤ, arith,
  null, ◌==◌, if◌then◌else◌, Bool-cases, Option-cases,
}
use agnostic_market.Text.{Text, text_eq, strip}
use agnostic_market.Text.Laws.{text_eq_refl, text_eq_iff}
use agnostic_market.Dict.{lookup, insert, erase}
use agnostic_market.Dict.Laws.{IsDict, lookup-insert, lookup-erase_ne, lookup-erase_self}
use agnostic_market.Effect.Laws.{Result-cases}
use agnostic_market.Effect.{Error, ok, err, Action}
use agnostic_market.Money.{Decimal, Cents, validate_usd}
use agnostic_market.Receipts.{ReceiptLookup, committed, classify_receipt}
use agnostic_market.Orders.Types.{Line}
use agnostic_market.Cart.Types.{
  CartOperation, CartMutationRecord, valid_mutation, Mutation, mutation_matches, CartStore,
}
use agnostic_market.Cart.Store.{
  quantity_of, final_of, line_of, new_mutation, priced, apply_confirmed_mutation, mutation_receipt,
}
use agnostic_market.Cart.Mutations.{IsApplied, new_mutation-cases}

-- The arguments of a call.
pub record Confirmation : Type 0 where
  pub key : Text
  pub operation : CartOperation
  pub sku : Text
  pub name : Text
  pub price : Decimal
  pub quantity : Option ℤ
  pub pre : ℤ

abbrev pub apply : Confirmation → Action CartStore CartMutationRecord
apply c = apply_confirmed_mutation c.key c.operation c.sku c.name c.price c.quantity c.pre

abbrev pub receipt : Confirmation → Action CartStore (ReceiptLookup CartMutationRecord)
receipt c = mutation_receipt c.key c.operation c.sku c.name c.price c.quantity c.pre

unfoldable pub apply_all : List Confirmation → CartStore → CartStore
apply_all [] s = s
apply_all (c ∷ cs) s = apply_all cs (apply c s).1

abbrev mutation : Confirmation → Cents → Mutation
mutation c checked = priced c.operation c.sku c.name checked c.quantity c.pre

-- A call that returned: its key and its price are right, and it answers from the ledger or
-- applies the mutation.
pub record IsAnswered (c : Confirmation) (s : CartStore) (r : CartMutationRecord) (s' : CartStore)
    : Type 0 where
  pub checked : Cents
  pub named : null (strip c.key) ≡ false
  pub paid : validate_usd c.price ≡ some checked
  pub outcome :
      ((lookup c.key s.mutations_by_key ≡ some r)
        × (mutation_matches r (mutation c checked) ≡ true)
        × (s' ≡ s))
      ⊎ ((lookup c.key s.mutations_by_key ≡ none) × IsApplied c.key (mutation c checked) s r s')

apply-IsAnswered :
    (c : Confirmation) (s s' : CartStore) (r : CartMutationRecord)
    → apply c s ≡ (ok r, s')
    → IsAnswered c s r s'
unfolding apply_confirmed_mutation
apply-IsAnswered c s s' r answer = elim (Bool-cases (null (strip c.key))) [
  | inl blank ↦ ground (arith, answer, blank)
  | inr named ↦ elim (Option-cases (validate_usd c.price)) [
    | inl bad ↦ ground (arith, answer, named, bad)
    | inr (checked, paid) ↦ elim (Option-cases (lookup c.key s.mutations_by_key)) [
      | inr (held, seen) ↦ elim (Bool-cases (mutation_matches held (mutation c checked))) [
        | inr other ↦ ground (arith, answer, named, paid, seen, other)
        | inl same ↦ record {
          checked = checked;
          named = named;
          paid = paid;
          outcome = inl (
            ground (arith, answer, named, paid, seen, same),
            ground (arith, answer, named, paid, seen, same),
            ground (arith, answer, named, paid, seen, same),
          );
        }
      ]
      | inl new ↦
          let run : new_mutation c.key (mutation c checked) s ≡ (ok r, s') =
            ground (arith, answer, named, paid, new) in
          elim (new_mutation-cases c.key (mutation c checked) s) [
            | inl (e, refused) ↦ ground (arith, run, refused)
            | inr (made, done, applied) ↦
                let same : made ≡ r = ground (arith, run, done) in
                record {
                  checked = checked;
                  named = named;
                  paid = paid;
                  outcome = inr (
                    new,
                    subst (λ x. IsApplied c.key (mutation c checked) s x s') same
                        (subst (λ x. IsApplied c.key (mutation c checked) s made x)
                          (ap (λ a. a.1) run) applied),
                  );
                }
          ]
    ]
  ]
]

-- A call that raises changes nothing.
apply-refused :
    (c : Confirmation) (s : CartStore) (e : Error) → (apply c s).0 ≡ err e → (apply c s).1 ≡ s
unfolding apply_confirmed_mutation
apply-refused c s e raised = elim (Bool-cases (null (strip c.key))) [
  | inl blank ↦ ground (arith, blank)
  | inr named ↦ elim (Option-cases (validate_usd c.price)) [
    | inl bad ↦ ground (arith, named, bad)
    | inr (checked, paid) ↦ elim (Option-cases (lookup c.key s.mutations_by_key)) [
      | inr (held, seen) ↦ ground (arith, named, paid, seen)
      | inl new ↦ elim (new_mutation-cases c.key (mutation c checked) s) [
        | inl (e', refused) ↦ ground (arith, named, paid, new, refused)
        | inr (made, done, applied) ↦ ground (arith, raised, named, paid, new, done)
      ]
    ]
  ]
]

IsAnswered-held :
    (c : Confirmation) (s s' : CartStore) (r : CartMutationRecord) (h : IsAnswered c s r s')
    → (lookup c.key s'.mutations_by_key ≡ some r)
      × (mutation_matches r (mutation c h.checked) ≡ true)
IsAnswered-held c s s' r h = elim h.outcome [
  | inl (held, matches, same) ↦ (ground (arith, held, same), matches)
  | inr (new, applied) ↦ (
    ground
        (arith, applied.ledger, lookup-insert c.key c.key r s.mutations_by_key, text_eq_refl c.key),
    applied.matches,
  )
]

IsAnswered-keeps :
    (c : Confirmation) (s s' : CartStore) (r : CartMutationRecord) (key : Text)
    (held : CartMutationRecord)
    → IsAnswered c s r s'
    → lookup key s.mutations_by_key ≡ some held
    → lookup key s'.mutations_by_key ≡ some held
IsAnswered-keeps c s s' r key held h there = elim h.outcome [
  | inl (_, matches, same) ↦ ground (arith, there, same)
  | inr (new, applied) ↦ ground (
    arith,
    there,
    new,
    applied.ledger,
    lookup-insert c.key key r s.mutations_by_key,
    text_eq_iff c.key key,
  )
]

apply-keeps :
    (c : Confirmation) (s : CartStore) (key : Text) (held : CartMutationRecord)
    → lookup key s.mutations_by_key ≡ some held
    → lookup key (apply c s).1.mutations_by_key ≡ some held
apply-keeps c s key held there = elim (Result-cases (apply c s).0) [
  | inl (e, raised) ↦ ground (arith, there, apply-refused c s e raised)
  | inr (r, done) ↦
      IsAnswered-keeps c s (apply c s).1 r key held
        (apply-IsAnswered c s (apply c s).1 r (λ i. (done i, (apply c s).1))) there
]

apply_all-keeps :
    (cs : List Confirmation) (s : CartStore) (key : Text) (held : CartMutationRecord)
    → lookup key s.mutations_by_key ≡ some held
    → lookup key (apply_all cs s).mutations_by_key ≡ some held
unfolding apply_all
apply_all-keeps [] s key held there = there
apply_all-keeps (c ∷ cs) s key held there =
    apply_all-keeps cs (apply c s).1 key held (apply-keeps c s key held there)

replayed :
    (c : Confirmation) (checked : Cents) (r : CartMutationRecord) (t : CartStore)
    → null (strip c.key) ≡ false
    → validate_usd c.price ≡ some checked
    → mutation_matches r (mutation c checked) ≡ true
    → lookup c.key t.mutations_by_key ≡ some r
    → (apply c t ≡ (ok r, t)) × (receipt c t ≡ (ok (committed r), t))
unfolding apply_confirmed_mutation mutation_receipt classify_receipt
replayed c checked r t named paid matches there =
    (ground (arith, named, paid, matches, there), ground (arith, named, paid, matches, there))

-- A confirmed mutation that returned is not applied again: whatever other confirmations were tried
-- in between, the same call returns the same record and changes nothing, and its receipt says that
-- this record is committed.
pub apply_confirmed_mutation-replay :
    (c : Confirmation) (s s' : CartStore) (r : CartMutationRecord) (between : List Confirmation)
    → apply c s ≡ (ok r, s')
    → (apply c (apply_all between s') ≡ (ok r, apply_all between s'))
      × (receipt c (apply_all between s') ≡ (ok (committed r), apply_all between s'))
apply_confirmed_mutation-replay c s s' r between answer =
    let h = apply-IsAnswered c s s' r answer in
    let (there, matches) = IsAnswered-held c s s' r h in
    replayed c h.checked r (apply_all between s') h.named h.paid matches
      (apply_all-keeps between s' c.key r there)

lines-quantity :
    (sku : Text) (line : Line) (final : ℕ) (s s' : CartStore)
    → IsDict s.lines
    → line.quantity ≡ final
    → s'.lines ≡ (if final == 0 then erase sku s.lines else insert sku line s.lines)
    → quantity_of sku s' ≡ final
unfolding quantity_of
lines-quantity sku line final s s' distinct counts lines = ground (
  arith,
  lines,
  lookup-erase_self sku s.lines distinct,
  lookup-insert sku sku line s.lines,
  text_eq_refl sku,
)

-- A confirmation under a new key does what was confirmed: the item ends with the quantity of the
-- record, which is what its operation makes of the quantity before it, and every other line of the
-- cart stays as it was. The record passes its own checks.
pub apply_confirmed_mutation-exact :
    (c : Confirmation) (s s' : CartStore) (r : CartMutationRecord) (other : Text)
    → IsDict s.lines
    → lookup c.key s.mutations_by_key ≡ none
    → apply c s ≡ (ok r, s')
    → (quantity_of c.sku s' ≡ r.final_quantity)
      × (final_of c.operation c.quantity (quantity_of c.sku s) ≡ ok r.final_quantity)
      × (r.previous_quantity ≡ quantity_of c.sku s)
      × (valid_mutation r ≡ true)
      × (lookup other s'.lines
          ≡ (if text_eq c.sku other then lookup c.sku s'.lines else lookup other s.lines))
unfolding quantity_of line_of priced
apply_confirmed_mutation-exact c s s' r other distinct new answer =
    let h = apply-IsAnswered c s s' r answer in
    elim h.outcome [
      | inl (held, matches, same) ↦ ground (arith, new, held)
      | inr (unused, applied) ↦
          let m = mutation c h.checked in
          let line = line_of m r.final_quantity in
          elim (Bool-cases (text_eq c.sku other)) [
            | inl here ↦ (
              lines-quantity c.sku line r.final_quantity s s' distinct refl applied.lines,
              applied.shape,
              applied.from,
              applied.valid,
              ground (arith, here, text_eq_iff c.sku other),
            )
            | inr ne ↦ (
              lines-quantity c.sku line r.final_quantity s s' distinct refl applied.lines,
              applied.shape,
              applied.from,
              applied.valid,
              ground (
                arith,
                applied.lines,
                ne,
                lookup-insert c.sku other line s.lines,
                lookup-erase_ne c.sku other s.lines ne,
              ),
            )
          ]
    ]
