-- ===== src/Text/Decimal.antt =====
-- `str(n)` of a number, and the references such as ORD-9001 that are made with it.
use agnostic_market.Base.{
  ℕ, zero, suc, ◌+◌, ◌-◌, ◌*◌, ◌/◌, ◌%◌, ◌<◌, ◌≡◌, refl, sym, ap, ◌∙◌, [], ◌∷◌, ◌++◌, arith, ltb,
  if◌then◌else◌, All,
}
use agnostic_market.Text.{Text, is_space, to_upper, normalize}
use agnostic_market.Text.Laws.{IsPlain, normalize-plain}

-- The decimal digits of `n`, most significant first. Fuel above `n` is enough.
unfoldable pub digits_from : ℕ → ℕ → Text
digits_from zero n = []
digits_from (suc fuel) n =
    let rest = digits_from fuel (n / 10) ++ (48 + n % 10) ∷ [] in
    if ltb n 10 then (48 + n) ∷ [] else rest

-- `str(n)`
unfoldable pub decimal : ℕ → Text
unfolding digits_from
decimal n = digits_from (suc n) n

-- f"{prefix}{n}"
unfoldable pub reference : Text → ℕ → Text
unfolding decimal
reference prefix n = prefix ++ decimal n

value_from : ℕ → Text → ℕ
value_from acc [] = acc
value_from acc (c ∷ s) = value_from (acc * 10 + (c - 48)) s

value_from-snoc :
    (acc : ℕ) (s : Text) (c : ℕ) → value_from acc (s ++ c ∷ []) ≡ value_from acc s * 10 + (c - 48)
unfolding value_from
value_from-snoc acc [] c = refl
value_from-snoc acc (d ∷ s) c = value_from-snoc (acc * 10 + (d - 48)) s c

value_from-digits_from : (fuel n : ℕ) → n < fuel → value_from 0 (digits_from fuel n) ≡ n
unfolding digits_from value_from
value_from-digits_from zero n h = elim h [ ]
value_from-digits_from (suc fuel) n h = ground (
  arith,
  value_from-digits_from fuel (n / 10),
  value_from-snoc 0 (digits_from fuel (n / 10)) (48 + n % 10),
)

value_from-decimal : (n : ℕ) → value_from 0 (decimal n) ≡ n
unfolding decimal
value_from-decimal n = value_from-digits_from (suc n) n (omega arith)

-- Different numbers print differently.
pub decimal-injective : (m n : ℕ) → decimal m ≡ decimal n → m ≡ n
decimal-injective m n e = sym (value_from-decimal m) ∙ ap (value_from 0) e ∙ value_from-decimal n

append_cancel : (p s t : Text) → p ++ s ≡ p ++ t → s ≡ t
append_cancel [] s t e = e
append_cancel (c ∷ p) s t e = append_cancel p s t (cc)

-- Different numbers make different references.
pub reference-injective : (p : Text) (m n : ℕ) → reference p m ≡ reference p n → m ≡ n
unfolding reference
reference-injective p m n e = decimal-injective m n (append_cancel p _ _ e)

All-append : (s t : Text) → All IsPlain s → All IsPlain t → All IsPlain (s ++ t)
All-append [] t hs ht = ht
All-append (c ∷ s) t hs ht = (hs.0, All-append s t hs.1 ht)

digit-IsPlain : (d : ℕ) → d < 10 → IsPlain (48 + d)
unfolding is_space to_upper
digit-IsPlain d h = ground arith

digits_from-IsPlain : (fuel n : ℕ) → All IsPlain (digits_from fuel n)
unfolding digits_from
digits_from-IsPlain zero n = tt
digits_from-IsPlain (suc fuel) n = ground (
  arith,
  digit-IsPlain n,
  digit-IsPlain (n % 10),
  All-append (digits_from fuel (n / 10)) ((48 + n % 10) ∷ []) (digits_from-IsPlain fuel (n / 10)),
)

-- A reference behind a plain prefix is canonical.
pub normalize-reference :
    (p : Text) (n : ℕ) → All IsPlain p → normalize (reference p n) ≡ reference p n
unfolding reference decimal
normalize-reference p n h = normalize-plain _ (All-append p _ h (digits_from-IsPlain (suc n) n))
