-- ===== src/Cart/Mutations.antt =====
-- A confirmed mutation is applied once, and as it was confirmed.
use agnostic_market.Base.{
  ℕ, ◌≡◌, refl, sym, ap, subst, ◌∙◌, ◌⊎◌, inl, inr, true, ◌&&◌, some, arith, not, ◌==◌,
  if◌then◌else◌, Bool-cases, Option-cases,
}
use agnostic_market.Text.{Text}
use agnostic_market.Text.Laws.{text_eq_refl}
use agnostic_market.Dict.{insert, erase}
use agnostic_market.Effect.{Error, ok, err, validation}
use agnostic_market.Effect.Laws.{Result-cases}
use agnostic_market.Orders.Types.{valid_line}
use agnostic_market.Cart.Types.{
  CartOperation, add, remove, set_quantity, operation_eq, CartMutationRecord, valid_mutation,
  Mutation, int_eq, quantity_eq, mutation_matches, CartStore,
}
use agnostic_market.Cart.Store.{
  quantity_of, final_of, mutation_record, line_of, commit_mutation, pre_of, new_mutation,
}

operation_eq_refl : (o : CartOperation) → operation_eq o o ≡ true
unfolding operation_eq
operation_eq_refl add = refl
operation_eq_refl remove = refl
operation_eq_refl set_quantity = refl

-- The record of a mutation whose shape is right matches the mutation.
mutation_record-matches :
    (m : Mutation) (pre previous final : ℕ)
    → final_of m.operation m.quantity previous ≡ ok final
    → pre_of m.pre_confirm_quantity ≡ some pre
    → mutation_matches (mutation_record m pre previous final) m ≡ true
unfolding mutation_matches mutation_record final_of pre_of quantity_eq int_eq
mutation_record-matches m pre previous final shape counted =
    ground (arith, text_eq_refl m.sku, text_eq_refl m.name, operation_eq_refl m.operation)

-- A mutation that was committed: the record, and the store it leaves.
pub record IsApplied (key : Text) (m : Mutation) (s : CartStore) (r : CartMutationRecord)
    (s' : CartStore) : Type 0 where
  pub matches : mutation_matches r m ≡ true
  pub shape : final_of m.operation m.quantity (quantity_of m.sku s) ≡ ok r.final_quantity
  pub from : r.previous_quantity ≡ quantity_of m.sku s
  pub valid : valid_mutation r ≡ true
  pub lines : s'.lines ≡ (
      if r.final_quantity == 0
      then erase m.sku s.lines
      else insert m.sku (line_of m r.final_quantity) s.lines)
  pub ledger : s'.mutations_by_key ≡ insert key r s.mutations_by_key

commit_mutation-applied :
    (key : Text) (m : Mutation) (r : CartMutationRecord) (s : CartStore)
    → mutation_matches r m ≡ true
    → final_of m.operation m.quantity (quantity_of m.sku s) ≡ ok r.final_quantity
    → r.previous_quantity ≡ quantity_of m.sku s
    → valid_mutation r ≡ true
    → let (answer, s') = commit_mutation key m r s in
      ((e : Error) × (answer ≡ err e) × (s' ≡ s)) ⊎ ((answer ≡ ok r) × IsApplied key m s r s')
unfolding commit_mutation
commit_mutation-applied key m r s matches shape from valid =
    elim (Bool-cases
      (not (r.final_quantity == 0) && not (valid_line (line_of m r.final_quantity)))) [
        | inl bad ↦ rw bad (inl (validation, refl, refl))
        | inr good ↦ rw good (
            inr (
              refl,
              record {
                matches = matches;
                shape = shape;
                from = from;
                valid = valid;
                lines = refl;
                ledger = refl;
              },
            ))
      ]

-- A mutation whose shape is right is committed as this record.
new_mutation-commit :
    (key : Text) (m : Mutation) (pre final : ℕ) (s : CartStore)
    → final_of m.operation m.quantity (quantity_of m.sku s) ≡ ok final
    → pre_of m.pre_confirm_quantity ≡ some pre
    → valid_mutation (mutation_record m pre (quantity_of m.sku s) final) ≡ true
    → new_mutation key m s
      ≡ commit_mutation key m (mutation_record m pre (quantity_of m.sku s) final) s
unfolding new_mutation
new_mutation-commit key m pre final s shape counted valid = ground (arith, shape, counted, valid)

-- A new mutation is refused and changes nothing, or it is committed.
pub new_mutation-cases :
    (key : Text) (m : Mutation) (s : CartStore)
    → ((e : Error) × (new_mutation key m s ≡ (err e, s)))
      ⊎ ((r : CartMutationRecord) × ((new_mutation key m s).0 ≡ ok r)
          × IsApplied key m s r (new_mutation key m s).1)
unfolding new_mutation
new_mutation-cases key m s =
    let previous = quantity_of m.sku s in
    elim (Result-cases (final_of m.operation m.quantity (quantity_of m.sku s))) [
      | inl (e, shapeless) ↦ inl (e, ground (arith, shapeless))
      | inr (final, shape) ↦ elim (Option-cases (pre_of m.pre_confirm_quantity)) [
        | inl below ↦ inl (validation, ground (arith, shape, below))
        | inr (pre, counted) ↦
            let r = mutation_record m pre previous final in
            elim (Bool-cases (valid_mutation r)) [
              | inr invalid ↦ inl (validation, ground (arith, shape, counted, invalid))
              | inl valid ↦
                  let same = new_mutation-commit key m pre final s shape counted valid in
                  elim (commit_mutation-applied key m r s
                    (mutation_record-matches m pre previous final shape counted) shape refl valid) [
                      | inl (e, refused, kept) ↦ inl (e, ground (arith, same, refused, kept))
                      | inr (done, applied) ↦ inr (
                        r,
                        ap (λ a. a.0) same ∙ done,
                        subst (λ a. IsApplied key m s r a.1) (sym same) applied,
                      )
                    ]
            ]
      ]
    ]
