-- ===== src/Registry/Scopes.antt =====
-- The generations and the receipts of one session, under changes of another's.
use agnostic_market.Base.{
  ◌≡◌, refl, ap, ◌∙◌, inl, inr, Bool, true, false, List, [], ◌∷◌, ◌++◌, arith, Bool-cases,
}
use agnostic_market.Text.{Text}
use agnostic_market.Registry.Database.{Key, key_eq, GenerationRow, GenerationState, OperationRow}
use agnostic_market.Registry.Generations.{rows_of, set_states}
use agnostic_market.Registry.Publication.{find_operation}
use agnostic_market.Registry.Finalizing.{without_generations, without_operations}
use agnostic_market.Registry.Rows.{eq_of_key_eq}

-- A key that is one session's is no other's.
pub key_eq_ne : (i k j : Key) → key_eq i k ≡ true → key_eq k j ≡ false → key_eq i j ≡ false
key_eq_ne i k j same other = ap (λ l. key_eq l j) (eq_of_key_eq i k same) ∙ other

module _ (k j : Key) (other : key_eq k j ≡ false) where
  pub rows_of-set_states :
      (test : GenerationRow → Bool) (state : GenerationState) (rows : List GenerationRow)
      → ((g : GenerationRow) → test g ≡ true → key_eq g.key k ≡ true)
      → rows_of j (set_states test state rows) ≡ rows_of j rows
  unfolding rows_of set_states
  rows_of-set_states test state [] own = refl
  rows_of-set_states test state (g ∷ rows) own = elim (Bool-cases (test g)) [
    | inl hit ↦ ground (arith, hit, key_eq_ne g.key k j (own g hit) other)
    | inr miss ↦ ground (arith, miss, rows_of-set_states test state rows own)
  ]

  pub rows_of-append :
      (new : GenerationRow) (rows : List GenerationRow)
      → new.key ≡ k
      → rows_of j (rows ++ new ∷ []) ≡ rows_of j rows
  unfolding rows_of
  rows_of-append new [] own = ground (arith, ap (λ l. key_eq l j) own, other)
  rows_of-append new (g ∷ rows) own = ground (arith, rows_of-append new rows own)

  pub rows_of-without :
      (rows : List GenerationRow) → rows_of j (without_generations k rows) ≡ rows_of j rows
  unfolding rows_of without_generations
  rows_of-without [] = refl
  rows_of-without (g ∷ rows) = elim (Bool-cases (key_eq g.key k)) [
    | inl hit ↦ ground (arith, hit, key_eq_ne g.key k j hit other, rows_of-without rows)
    | inr miss ↦ ground (arith, miss, rows_of-without rows)
  ]

  pub find_operation-append :
      (operation : Text) (new : OperationRow) (rows : List OperationRow)
      → new.key ≡ k
      → find_operation j operation (rows ++ new ∷ []) ≡ find_operation j operation rows
  unfolding find_operation
  find_operation-append operation new [] own = ground (arith, ap (λ l. key_eq l j) own, other)
  find_operation-append operation new (o ∷ rows) own =
      ground (arith, find_operation-append operation new rows own)

  pub find_operation-without :
      (operation : Text) (rows : List OperationRow)
      → find_operation j operation (without_operations k rows) ≡ find_operation j operation rows
  unfolding find_operation without_operations
  find_operation-without operation [] = refl
  find_operation-without operation (o ∷ rows) = elim (Bool-cases (key_eq o.key k)) [
    | inl hit ↦
        ground (arith, hit, key_eq_ne o.key k j hit other, find_operation-without operation rows)
    | inr miss ↦ ground (arith, miss, find_operation-without operation rows)
  ]
