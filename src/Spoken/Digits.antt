-- ===== src/Spoken/Digits.antt =====
-- `spoken_digits`: the digits of an utterance, with the digit words mapped.
use agnostic_market.Base.{
  ℕ, ◌+◌, Bool, ◌&&◌, ◌||◌, Option, none, some, List, [], ◌∷◌, ◌++◌, map, leb, if◌then◌else◌, null,
}
use agnostic_market.Text.{Text, codes, text_eq}

-- `ch.isdigit()` of an ASCII character
unfoldable pub is_digit : ℕ → Bool
is_digit c = leb b'0' c && leb c b'9'

-- `str.lower` of an ASCII character
unfoldable pub to_lower : ℕ → ℕ
to_lower c = if leb b'A' c && leb c b'Z' then c + 32 else c

-- A character that the pattern `[^a-z0-9]+` does not match.
unfoldable pub is_token : ℕ → Bool
unfolding is_digit
is_token c = is_digit c || (leb b'a' c && leb c b'z')

-- `word` before the tokens that follow it, without the empty ones at the ends of a split.
unfoldable pub push : Text → List Text → List Text
push word rest = if null word then rest else word ∷ rest

-- `re.split(r"[^a-z0-9]+", text)`, with the word read so far.
unfoldable pub split_from : Text → Text → List Text
unfolding is_token push
split_from word [] = push word []
split_from word (c ∷ s) =
    let longer = split_from (word ++ c ∷ []) s in
    let rest = push word (split_from [] s) in if is_token c then longer else rest

unfoldable pub tokens : Text → List Text
unfolding split_from to_lower
tokens text = split_from [] (map to_lower text)

-- `_DIGIT_WORDS`
unfoldable pub digit_words : List (Text × ℕ)
digit_words =
    (codes "zero", b'0')
    ∷ (codes "oh", b'0')
    ∷ (codes "one", b'1')
    ∷ (codes "two", b'2')
    ∷ (codes "three", b'3')
    ∷ (codes "four", b'4')
    ∷ (codes "five", b'5')
    ∷ (codes "six", b'6')
    ∷ (codes "seven", b'7')
    ∷ (codes "eight", b'8')
    ∷ (codes "nine", b'9')
    ∷ []

unfoldable pub find_word : Text → List (Text × ℕ) → Option ℕ
find_word word [] = none
find_word word ((w, d) ∷ ws) = if text_eq w word then some d else find_word word ws

-- `"".join(ch for ch in token if ch.isdigit())`
unfoldable pub keep_digits : Text → Text
unfolding is_digit
keep_digits [] = []
keep_digits (c ∷ s) = if is_digit c then c ∷ keep_digits s else keep_digits s

unfoldable pub token_digits : Text → Text
unfolding find_word digit_words keep_digits
token_digits token = elim (find_word token digit_words) [
  | some d ↦ d ∷ []
  | none ↦ keep_digits token
]

unfoldable pub join_digits : List Text → Text
unfolding token_digits
join_digits [] = []
join_digits (token ∷ rest) = token_digits token ++ join_digits rest

unfoldable pub spoken_digits : Text → Text
unfolding join_digits tokens
spoken_digits text = join_digits (tokens text)
