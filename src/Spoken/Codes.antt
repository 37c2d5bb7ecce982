-- ===== src/Spoken/Codes.antt =====
-- What reaches the code that verifies a spoken number: digits only, and a typed number unchanged.
use agnostic_market.Base.{
  ℕ, ◌≡◌, refl, ◌∙◌, inl, inr, Bool, true, false, none, some, List, [], ◌∷◌, ◌++◌, map, arith, All,
  not, Option-cases, Bool-cases, ap,
}
use mathlib.Core.List.{append-nil, append_assoc}
use agnostic_market.Text.{Text, text_eq}
use agnostic_market.Text.Laws.{eq_of_text_eq}
use agnostic_market.Spoken.Digits.{
  is_digit, is_token, to_lower, push, split_from, tokens, digit_words, find_word, keep_digits,
  token_digits, join_digits, spoken_digits,
}

abbrev pub IsDigit : ℕ → Type 0
IsDigit c = is_digit c ≡ true

All-append : (s t : Text) → All IsDigit s → All IsDigit t → All IsDigit (s ++ t)
All-append [] t hs ht = ht
All-append (c ∷ s) t hs ht = (hs.0, All-append s t hs.1 ht)

keep_digits-IsDigit : (s : Text) → All IsDigit (keep_digits s)
unfolding keep_digits
keep_digits-IsDigit [] = tt
keep_digits-IsDigit (c ∷ s) = ground (arith, keep_digits-IsDigit s)

find_word-IsDigit :
    (word : Text) (ws : List (Text × ℕ)) (d : ℕ)
    → All (λ w. IsDigit w.1) ws
    → find_word word ws ≡ some d
    → IsDigit d
unfolding find_word
find_word-IsDigit word [] d h e = cc
find_word-IsDigit word ((w, v) ∷ ws) d h e = ground (arith, find_word-IsDigit word ws d h.1)

digit_words-IsDigit : All (λ w. IsDigit w.1) digit_words
unfolding digit_words is_digit
digit_words-IsDigit = ground arith

token_digits-IsDigit : (token : Text) → All IsDigit (token_digits token)
unfolding token_digits
token_digits-IsDigit token = elim (Option-cases (find_word token digit_words)) [
  | inl other ↦ rw (other, token_digits) (keep_digits-IsDigit token)
  | inr (d, found) ↦
      rw (found, token_digits) (find_word-IsDigit token digit_words d digit_words-IsDigit found, tt)
]

join_digits-IsDigit : (ts : List Text) → All IsDigit (join_digits ts)
unfolding join_digits
join_digits-IsDigit [] = tt
join_digits-IsDigit (t ∷ ts) =
    All-append (token_digits t) (join_digits ts) (token_digits-IsDigit t) (join_digits-IsDigit ts)

-- Whatever a caller said, what is compared or sent to a provider consists of digits.
pub spoken_digits-IsDigit : (text : Text) → All IsDigit (spoken_digits text)
unfolding spoken_digits
spoken_digits-IsDigit text = join_digits-IsDigit (tokens text)

abbrev starts_letter : Text → Bool
starts_letter [] = false
starts_letter (c ∷ _) = not (is_digit c)

not_digits : (w : Text) → starts_letter w ≡ true → ¬ (All IsDigit w)
not_digits [] e h = cc
not_digits (c ∷ w) e h = ground arith

find_word-none :
    (word : Text) (ws : List (Text × ℕ))
    → All IsDigit word
    → All (λ w. starts_letter w.0 ≡ true) ws
    → find_word word ws ≡ none
unfolding find_word
find_word-none word [] h n = refl
find_word-none word ((w, v) ∷ ws) h n = elim (Bool-cases (text_eq w word)) [
  | inl same ↦ absurd (not_digits w n.0 (rw (eq_of_text_eq w word same) h))
  | inr other ↦ rw other (find_word-none word ws h n.1)
]

digit_words-letters : All (λ w. starts_letter w.0 ≡ true) digit_words
unfolding digit_words is_digit
digit_words-letters = ground arith

keep_digits-digits : (s : Text) → All IsDigit s → keep_digits s ≡ s
unfolding keep_digits
keep_digits-digits [] h = refl
keep_digits-digits (c ∷ s) h = ground (arith, keep_digits-digits s h.1)

token_digits-digits : (s : Text) → All IsDigit s → token_digits s ≡ s
unfolding token_digits
token_digits-digits s h =
    rw (find_word-none s digit_words h digit_words-letters, token_digits) (keep_digits-digits s h)

map-to_lower : (s : Text) → All IsDigit s → map to_lower s ≡ s
unfolding to_lower is_digit
map-to_lower [] h = refl
map-to_lower (c ∷ s) h = ground (arith, map-to_lower s h.1)

split_from-digits : (word s : Text) → All IsDigit s → split_from word s ≡ push (word ++ s) []
unfolding split_from is_token
split_from-digits word [] h = rw append-nil refl
split_from-digits word (c ∷ s) h =
    rw h.0 (
      split_from-digits (word ++ c ∷ []) s h.1 ∙ ap (λ t. push t []) (append_assoc word (c ∷ []) s))

tokens-digits : (s : Text) → All IsDigit s → tokens s ≡ push s []
unfolding tokens
tokens-digits s h = ap (split_from []) (map-to_lower s h) ∙ split_from-digits [] s h

join_digits-push : (s : Text) → All IsDigit s → join_digits (push s []) ≡ s
unfolding join_digits push
join_digits-push [] h = refl
join_digits-push (c ∷ s) h = append-nil (token_digits (c ∷ s)) ∙ token_digits-digits (c ∷ s) h

-- A number that is typed, or that recognition wrote in digits, passes through unchanged.
pub spoken_digits-digits : (s : Text) → All IsDigit s → spoken_digits s ≡ s
unfolding spoken_digits
spoken_digits-digits s h = ap join_digits (tokens-digits s h) ∙ join_digits-push s h
