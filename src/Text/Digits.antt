-- ===== src/Text/Digits.antt =====
-- Numbers of two digits, and `replace` of what ends a text.
use anonymous_repo.Prelude.{
  ℕ, ◌+◌, ◌*◌, ◌<◌, ◌≡◌, refl, ◌∙◌, ap, true, false, some, [], ◌∷◌, ◌++◌, ◌==◌, arith, pos,
}
use anonymous_repo.Text.Str.{Text, starts_with, codes}
use anonymous_repo.Text.Words.{IsWord}
use anonymous_repo.Text.Number.{digits_value, parse_int}
use anonymous_repo.Text.Decimal.{
  digits_value-digit, digit-NoSpace, signed_of_StartsDigit, parse_int_of_word,
}
use anonymous_repo.Text.Split.{Lacks}
use anonymous_repo.Text.Edit.{replace, replace_from}

-- A number below 100 with its leading zero.
abbrev pub two_digits : ℕ → ℕ → Text
two_digits a b = (b'0' + a) ∷ (b'0' + b) ∷ []

pub two_digits-IsWord : (a b : ℕ) → a < 10 → b < 10 → IsWord (two_digits a b)
two_digits-IsWord a b h k = (digit-NoSpace a h, (digit-NoSpace b k, tt))

digits_value-two_digits :
    (a b : ℕ) → a < 10 → b < 10 → digits_value 0 false (two_digits a b) ≡ some (10 * a + b)
unfolding digits_value
digits_value-two_digits a b h k =
    let whole : (0 * 10 + a) * 10 + b ≡ 10 * a + b = omega arith in
    digits_value-digit 0 false a ((b'0' + b) ∷ []) h
    ∙ digits_value-digit (0 * 10 + a) true b [] k
    ∙ ap some whole

pub parse_int-two_digits :
    (a b : ℕ) → a < 10 → b < 10 → parse_int (two_digits a b) ≡ some (pos (10 * a + b))
parse_int-two_digits a b h k =
    parse_int_of_word (two_digits a b) (two_digits-IsWord a b h k)
    ∙ signed_of_StartsDigit (two_digits a b) (10 * a + b) (a, (b'0' + b) ∷ [], h, refl)
        (digits_value-two_digits a b h k)

-- An end is taken away whose first character stands nowhere before it.
replace_from-elapsed :
    (w : Text) → Lacks b'e' w → replace_from (codes "elapsed") [] 0 (w ++ codes "elapsed") ≡ w
unfolding replace_from starts_with
replace_from-elapsed [] h = refl
replace_from-elapsed (c ∷ w) (h, hs) =
    let other : (b'e' == c) ≡ false = ground (arith, h) in simp (other, replace_from-elapsed w hs)

pub replace-elapsed :
    (w : Text) → Lacks b'e' w → replace (codes "elapsed") [] (w ++ codes "elapsed") ≡ w
unfolding replace
replace-elapsed w h = replace_from-elapsed w h
