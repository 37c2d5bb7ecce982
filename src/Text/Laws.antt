-- ===== src/Text/Laws.antt =====
-- Equality of texts, and that the canonical form of an identifier is a fixed point.
use agnostic_market.Base.{ℕ, ◌≡◌, refl, ◌↔◌, true, false, [], ◌∷◌, arith, All}
use agnostic_market.Text.{
  Text, text_eq, is_space, lstrip, rstrip, strip, to_upper, upper, normalize,
}

pub text_eq_refl : (s : Text) → text_eq s s ≡ true
unfolding text_eq
text_eq_refl [] = refl
text_eq_refl (c ∷ s) = ground (arith, text_eq_refl s)

pub eq_of_text_eq : (s t : Text) → text_eq s t ≡ true → s ≡ t
unfolding text_eq
eq_of_text_eq [] [] h = refl
eq_of_text_eq [] (d ∷ t) h = cc
eq_of_text_eq (c ∷ s) [] h = cc
eq_of_text_eq (c ∷ s) (d ∷ t) h = ground (arith, eq_of_text_eq s t)

pub text_eq_iff : (s t : Text) → (text_eq s t ≡ true) ↔ (s ≡ t)
text_eq_iff s t = (eq_of_text_eq s t, λ e. rw e (text_eq_refl t))

is_space-to_upper : (c : ℕ) → is_space (to_upper c) ≡ is_space c
unfolding is_space to_upper
is_space-to_upper c = ground arith

to_upper_idem : (c : ℕ) → to_upper (to_upper c) ≡ to_upper c
unfolding to_upper
to_upper_idem c = ground arith

lstrip-upper : (s : Text) → lstrip (upper s) ≡ upper (lstrip s)
unfolding lstrip upper
lstrip-upper [] = refl
lstrip-upper (c ∷ s) = ground (arith, is_space-to_upper c, lstrip-upper s)

rstrip-upper : (s : Text) → rstrip (upper s) ≡ upper (rstrip s)
unfolding rstrip upper
rstrip-upper [] = refl
rstrip-upper (c ∷ s) = ground (arith, is_space-to_upper c, rstrip-upper s)

upper_idem : (s : Text) → upper (upper s) ≡ upper s
unfolding upper
upper_idem [] = refl
upper_idem (c ∷ s) = cc (to_upper_idem c, upper_idem s)

lstrip_idem : (s : Text) → lstrip (lstrip s) ≡ lstrip s
unfolding lstrip
lstrip_idem [] = refl
lstrip_idem (c ∷ s) = ground (arith, lstrip_idem s)

rstrip_idem : (s : Text) → rstrip (rstrip s) ≡ rstrip s
unfolding rstrip
rstrip_idem [] = refl
rstrip_idem (c ∷ s) = ground (arith, rstrip_idem s)

lstrip-rstrip : (s : Text) → lstrip (rstrip s) ≡ rstrip (lstrip s)
unfolding lstrip rstrip
lstrip-rstrip [] = refl
lstrip-rstrip (c ∷ s) = ground (arith, lstrip-rstrip s)

pub strip_idem : (s : Text) → strip (strip s) ≡ strip s
unfolding strip
strip_idem s = simp (lstrip-rstrip, rstrip_idem, lstrip_idem)

-- Canonical identifiers are fixed points.
pub normalize_idem : (s : Text) → normalize (normalize s) ≡ normalize s
unfolding normalize strip
normalize_idem s =
    simp (lstrip-upper, rstrip-upper, upper_idem, lstrip-rstrip, rstrip_idem, lstrip_idem)

-- A code point that neither `strip` nor `upper` touches.
abbrev pub IsPlain : ℕ → Type 0
IsPlain c = (is_space c ≡ false) × (to_upper c ≡ c)

rstrip-plain : (s : Text) → All IsPlain s → rstrip s ≡ s
unfolding rstrip
rstrip-plain [] h = refl
rstrip-plain (c ∷ s) h = ground (arith, rstrip-plain s h.1)

upper-plain : (s : Text) → All IsPlain s → upper s ≡ s
unfolding upper
upper-plain [] h = refl
upper-plain (c ∷ s) h = ground (arith, upper-plain s h.1)

pub normalize-plain : (s : Text) → All IsPlain s → normalize s ≡ s
unfolding normalize strip lstrip upper rstrip
normalize-plain [] h = refl
normalize-plain (c ∷ s) h = ground (arith, rstrip-plain (c ∷ s) h, upper-plain (c ∷ s) h)
