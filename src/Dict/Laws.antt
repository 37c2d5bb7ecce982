-- ===== src/Dict/Laws.antt =====
-- Lookup under each update, and that the keys of a dictionary stay distinct.
use agnostic_market.Base.{
  ◌≡◌, refl, Bool, true, false, any, inl, inr, Bool-cases, none, some, [], ◌∷◌, arith,
  if◌then◌else◌,
}
use agnostic_market.Text.{Text, text_eq}
use agnostic_market.Text.Laws.{text_eq_iff, text_eq_refl}
use agnostic_market.Dict.{Dict, lookup, insert, erase, values}

module _ {ℓ} {V : Type ℓ} where
  pub lookup-insert :
      (k j : Text) (v : V) (d : Dict V)
      → lookup j (insert k v d) ≡ (if text_eq k j then some v else lookup j d)
  unfolding lookup insert
  lookup-insert k j v [] = refl
  lookup-insert k j v ((i, w) ∷ d) =
      ground (arith, text_eq_iff k j, text_eq_iff i k, text_eq_iff i j, lookup-insert k j v d)

  -- The keys of a dictionary are distinct.
  abbrev pub IsDict : Dict V → Type ℓ
  IsDict [] = Unit
  IsDict ((k, _) ∷ d) = (lookup k d ≡ none) × IsDict d

  pub lookup-erase_ne :
      (k j : Text) (d : Dict V) → text_eq k j ≡ false → lookup j (erase k d) ≡ lookup j d
  unfolding lookup erase
  lookup-erase_ne k j [] h = refl
  lookup-erase_ne k j ((i, w) ∷ d) h =
      ground (arith, text_eq_iff k j, text_eq_iff i k, text_eq_iff i j, lookup-erase_ne k j d h)

  pub lookup-erase_self : (k : Text) (d : Dict V) → IsDict d → lookup k (erase k d) ≡ none
  unfolding lookup erase
  lookup-erase_self k [] h = refl
  lookup-erase_self k ((i, w) ∷ d) h = ground (arith, text_eq_iff i k, lookup-erase_self k d h.1)

  pub insert-IsDict : (k : Text) (v : V) (d : Dict V) → IsDict d → IsDict (insert k v d)
  unfolding lookup insert
  insert-IsDict k v [] h = (refl, tt)
  insert-IsDict k v ((i, w) ∷ d) h =
      ground
        (arith, text_eq_iff i k, text_eq_iff k i, lookup-insert k i v d, insert-IsDict k v d h.1)

  lookup-erase-none : (k j : Text) (d : Dict V) → lookup j d ≡ none → lookup j (erase k d) ≡ none
  unfolding lookup erase
  lookup-erase-none k j [] h = refl
  lookup-erase-none k j ((i, w) ∷ d) h = ground (arith, lookup-erase-none k j d)

  pub erase-IsDict : (k : Text) (d : Dict V) → IsDict d → IsDict (erase k d)
  unfolding lookup erase
  erase-IsDict k [] h = tt
  erase-IsDict k ((i, w) ∷ d) h = ground (arith, lookup-erase-none k i d h.0, erase-IsDict k d h.1)

  -- A value that passes a test stands under some key.
  pub any-lookup :
      (f : V → Bool) (d : Dict V)
      → IsDict d
      → any f (values d) ≡ true
      → (k : Text) × (v : V) × (lookup k d ≡ some v) × (f v ≡ true)
  unfolding lookup
  any-lookup f [] h found = ground arith
  any-lookup f ((k, v) ∷ d) h found = elim (Bool-cases (f v)) [
    | inl passed ↦ (k, v, ground (arith, text_eq_refl k), passed)
    | inr failed ↦
        let (j, w, held, passes) = any-lookup f d h.1 (ground arith) in
        (j, w, ground (arith, text_eq_iff k j, h.0, held), passes)
  ]

  pub lookup-any :
      (f : V → Bool) (k : Text) (v : V) (d : Dict V)
      → lookup k d ≡ some v
      → f v ≡ true
      → any f (values d) ≡ true
  unfolding lookup
  lookup-any f k v [] held passes = ground arith
  lookup-any f k v ((j, w) ∷ d) held passes = ground (arith, lookup-any f k v d)
