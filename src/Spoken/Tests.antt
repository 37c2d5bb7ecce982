-- ===== src/Spoken/Tests.antt =====
-- Utterances and the digits in them.
use agnostic_market.Base.{◌≡◌, refl, All}
use agnostic_market.Text.{codes, text_eq}
use agnostic_market.Spoken.Digits.{spoken_digits, is_digit}
use agnostic_market.Spoken.Codes.{IsDigit, spoken_digits-IsDigit, spoken_digits-digits}

said : spoken_digits (codes "It should be four eight two nine one three.") ≡ codes "482913"
unfolding spoken_digits text_eq
said = refl

typed : All IsDigit (codes "482913")
unfolding is_digit
typed = (refl, (refl, (refl, (refl, (refl, (refl, tt))))))

spoken_digits-digits_example : spoken_digits (codes "482913") ≡ codes "482913"
spoken_digits-digits_example = spoken_digits-digits (codes "482913") typed

spoken_digits-IsDigit_example :
    All IsDigit (spoken_digits (codes "It should be four eight two nine one three."))
spoken_digits-IsDigit_example =
    spoken_digits-IsDigit (codes "It should be four eight two nine one three.")
