-- ===== src/Text/Number.antt =====
-- `int(t)` and `str(n)`.
use anonymous_repo.Prelude.{
  ℕ, zero, suc, ◌+◌, ◌-◌, ◌*◌, ◌/◌, ◌%◌, Bool, false, ◌&&◌, ◌||◌, Option, none, some, [], ◌∷◌, ◌++◌,
  ltb, leb, ◌==◌, if◌then◌else◌, ℤ, pos, negsuc, sub_ℕ,
}
use anonymous_repo.Text.Str.{Text, strip}

-- The digits of an `int` literal, with single underscores between digits. `after_digit` says that
-- the last character read was a digit.
unfoldable pub digits_value : ℕ → Bool → Text → Option ℕ
digits_value n after_digit [] = if after_digit then some n else none
digits_value n after_digit (c ∷ t) =
    let is_digit = leb b'0' c && leb c b'9' in
    let rest = digits_value (if is_digit then n * 10 + (c - b'0') else n) is_digit t in
    if is_digit || (after_digit && c == b'_') then rest else none

unfoldable pub signed : Text → Option ℤ
unfolding digits_value
signed [] = none
signed (c ∷ t) =
    let is_minus = c == b'-' in
    let body = if is_minus || c == b'+' then t else c ∷ t in
    elim (digits_value 0 false body) [
      | none ↦ none
      | some n ↦ some (if is_minus then sub_ℕ 0 n else pos n)
    ]

-- `int(t)`; `none` is the ValueError. Digits outside ASCII are not read.
unfoldable pub parse_int : Text → Option ℤ
unfolding signed strip
parse_int t = signed (strip t)

unfoldable pub decimal_from : ℕ → ℕ → Text
decimal_from zero n = []
decimal_from (suc f) n =
    let front = decimal_from f (n / 10) in
    if ltb n 10 then (b'0' + n) ∷ [] else front ++ (b'0' + n % 10) ∷ []

-- `str(n)` of a number that is not negative: it has at most `n + 1` digits.
unfoldable pub decimal : ℕ → Text
unfolding decimal_from
decimal n = decimal_from (suc n) n

-- `str(z)`
unfoldable pub show_int : ℤ → Text
unfolding decimal
show_int (pos n) = decimal n
show_int (negsuc n) = b'-' ∷ decimal (suc n)
