-- ===== src/Cart/Roundtrip.antt =====
-- A cart that is written to a checkpoint and read back is the same cart.
use agnostic_market.Base.{
  ◌≡◌, refl, sym, ap, subst, ◌∙◌, false, none, [], ◌∷◌, ◌++◌, map, arith, All, Bool-cases, inl, inr,
}
use agnostic_market.Text.{Text, text_eq}
use agnostic_market.Text.Laws.{text_eq_iff, text_eq_refl}
use agnostic_market.Dict.{Dict, lookup, insert, values}
use agnostic_market.Dict.Laws.{IsDict}
use agnostic_market.Effect.{ok}
use agnostic_market.Orders.Types.{Line}
use agnostic_market.Cart.Types.{CartStore}
use agnostic_market.Cart.State.{
  CartSessionState, valid_state, insert_all, from_state, export_state, restore_state,
}

module _ {V : Type 0} where
  append-nil : (d : Dict V) → d ++ [] ≡ d
  append-nil [] = refl
  append-nil (x ∷ d) = ap (λ e. x ∷ e) (append-nil d)

  append_assoc : (a b c : Dict V) → (a ++ b) ++ c ≡ a ++ (b ++ c)
  append_assoc [] b c = refl
  append_assoc (x ∷ a) b c = ap (λ e. x ∷ e) (append_assoc a b c)

  insert-new :
      (k : Text) (v : V) (d : Dict V) → lookup k d ≡ none → insert k v d ≡ d ++ ((k, v) ∷ [])
  unfolding lookup insert
  insert-new k v [] new = refl
  insert-new k v ((j, w) ∷ d) new = ground (arith, insert-new k v d, new)

  -- A key in the tail of a dictionary is not the key before it.
  lookup-none :
      (j k : Text) (v : V) (d items : Dict V)
      → lookup j (d ++ ((k, v) ∷ items)) ≡ none
      → text_eq j k ≡ false
  unfolding lookup
  lookup-none j k v [] items none_there =
      ground (arith, none_there, text_eq_iff j k, text_eq_refl k)
  lookup-none j k v ((i, w) ∷ d) items none_there =
      ground (arith, none_there, lookup-none j k v d items)

  distinct-none :
      (k : Text) (v : V) (d items : Dict V) → IsDict (d ++ ((k, v) ∷ items)) → lookup k d ≡ none
  unfolding lookup
  distinct-none k v [] items h = refl
  distinct-none k v ((j, w) ∷ d) items h =
      ground (arith, lookup-none j k v d items h.0, distinct-none k v d items h.1)

  insert_all-append : (items d : Dict V) → IsDict (d ++ items) → insert_all items d ≡ d ++ items
  unfolding insert_all
  insert_all-append [] d h = sym (append-nil d)
  insert_all-append ((k, v) ∷ items) d h =
      ap (insert_all items) (insert-new k v d (distinct-none k v d items h))
      ∙ insert_all-append items (d ++ ((k, v) ∷ []))
          (subst IsDict (sym (append_assoc d ((k, v) ∷ []) items)) h)
      ∙ append_assoc d ((k, v) ∷ []) items

-- Every line stands under its own stock-keeping unit.
abbrev pub OwnSku : Text × Line → Type 0
OwnSku (sku, line) = line.sku ≡ sku

keyed_lines : (d : Dict Line) → All OwnSku d → map (λ l. (l.sku, l)) (values d) ≡ d
keyed_lines [] h = refl
keyed_lines ((sku, line) ∷ d) h = λ i. (h.0 i, line) ∷ keyed_lines d h.1 i

-- A cart whose lines stand under their own stock-keeping units, and whose lines and receipts have
-- distinct keys, is read back from the state it exports, by a new cart or into any other one.
pub export_state-from_state :
    (s other : CartStore) (state : CartSessionState)
    → IsDict s.lines
    → All OwnSku s.lines
    → IsDict s.mutations_by_key
    → export_state s ≡ ok state
    → (from_state state ≡ s) × (restore_state state other ≡ s)
unfolding export_state restore_state from_state
export_state-from_state s other state lines own receipts exported =
    let written : CartSessionState = record {
      lines = values s.lines;
      mutation_receipts = s.mutations_by_key;
    } in
    let same : written ≡ state = elim (Bool-cases (valid_state written)) [
      | inl valid ↦ ground (arith, exported, valid)
      | inr invalid ↦ ground (arith, exported, invalid)
    ] in
    let back : from_state written ≡ s = λ i. record {
      lines =
          (ap (λ d. insert_all d []) (keyed_lines s.lines own) ∙ insert_all-append s.lines [] lines)
            i;
      mutations_by_key = insert_all-append s.mutations_by_key [] receipts i;
    } in
    (ap from_state (sym same) ∙ back, ap from_state (sym same) ∙ back)
