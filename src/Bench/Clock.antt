-- ===== src/Bench/Clock.antt =====
-- artifact/common_util.py: `parse_time` and `parse_time_no_msec`.
use anonymous_repo.Prelude.{
  ap, ◌∙◌, refl, All-append, arith, false, All-append, ◌==◌, ◌++◌, ◌<◌, ◌≡◌, ℕ, ◌+◌, ◌*◌, List, [],
  ◌∷◌, Result, ok, err, ◌>>=◌, or_raise, index_error, value_error, get_elem?, if◌then◌else◌, ℤ, pos,
  pos_part, neg_part, sub_ℕ, ltb_ℤ,
}
use anonymous_repo.Text.Str.{Text, split_on}
use anonymous_repo.Text.Decimal.{decimal-All, parse_int-decimal}
use anonymous_repo.Text.Split.{Lacks, split_on-sep, split_on-last}
use anonymous_repo.Text.Number.{decimal, parse_int}

-- `int(components[i])`
unfoldable pub component : List Text → ℕ → Result ℤ
component components i = do
  t ← or_raise index_error (get_elem? components i)
  or_raise value_error (parse_int t)

-- `seconds, milliseconds = map(int, t.split("."))`: any other number of parts is a ValueError.
unfoldable pub seconds_pair : List Text → Result (ℤ × ℤ)
seconds_pair (s ∷ m ∷ []) = do
  seconds ← or_raise value_error (parse_int s)
  milliseconds ← or_raise value_error (parse_int m)
  ok (seconds, milliseconds)
seconds_pair _ = err value_error

-- `a * h + b * m + c * s + d`, for numbers `a`, `b` and `c` that are not negative.
unfoldable pub combine : ℕ → ℤ → ℕ → ℤ → ℕ → ℤ → ℤ → ℤ
combine a h b m c s d =
    sub_ℕ (a * pos_part h + b * pos_part m + c * pos_part s + pos_part d)
      (a * neg_part h + b * neg_part m + c * neg_part s + neg_part d)

-- The result in thousandths of a second.
unfoldable pub parse_time : Text → Result ℤ
unfolding component seconds_pair
parse_time time_string = do
  let components = split_on b':' time_string
  hours ← component components 0
  minutes ← component components 1
  t ← or_raise index_error (get_elem? components 2)
  (seconds, milliseconds) ← seconds_pair (split_on b'.' t)
  ok (combine 3600000 hours 60000 minutes 1000 seconds milliseconds)

unfoldable pub parse_time_no_msec : Text → Result ℤ
unfolding component
parse_time_no_msec time_string = do
  let components = split_on b':' time_string
  hours ← component components 0
  minutes ← component components 1
  seconds ← component components 2
  let total_seconds = combine 3600 hours 60 minutes 1 seconds (pos 0)
  if ltb_ℤ total_seconds (pos 10000) then err value_error else ok total_seconds

-- Hours, minutes, seconds and a number behind a point.
abbrev pub clock_text : ℕ → ℕ → ℕ → ℕ → Text
clock_text h m s f = decimal h ++ b':' ∷ (decimal m ++ b':' ∷ (decimal s ++ b'.' ∷ decimal f))

pub digit-ne-colon : (d : ℕ) → d < 10 → ((b'0' + d) == b':') ≡ false
digit-ne-colon d h = ground arith

pub digit-ne-point : (d : ℕ) → d < 10 → ((b'0' + d) == b'.') ≡ false
digit-ne-point d h = ground arith

decimal-Lacks_colon : (n : ℕ) → Lacks b':' (decimal n)
decimal-Lacks_colon n = decimal-All (λ c. (c == b':') ≡ false) n digit-ne-colon

decimal-Lacks_point : (n : ℕ) → Lacks b'.' (decimal n)
decimal-Lacks_point n = decimal-All (λ c. (c == b'.') ≡ false) n digit-ne-point

split-clock_text :
    (h m s f : ℕ)
    → split_on b':' (clock_text h m s f)
      ≡ decimal h ∷ decimal m ∷ (decimal s ++ b'.' ∷ decimal f) ∷ []
split-clock_text h m s f =
    let seconds = decimal s ++ b'.' ∷ decimal f in
    let whole =
      All-append (λ c. (c == b':') ≡ false) (decimal s) (b'.' ∷ decimal f) (decimal-Lacks_colon s)
        (refl, decimal-Lacks_colon f) in
    split_on-sep b':' (decimal h) (decimal m ++ b':' ∷ seconds) (decimal-Lacks_colon h)
    ∙ ap (λ l. decimal h ∷ l)
        (split_on-sep b':' (decimal m) seconds (decimal-Lacks_colon m)
          ∙ ap (λ l. decimal m ∷ l) (split_on-last b':' seconds whole))

pub combine-pos :
    (a h b m c s d : ℕ)
    → combine a (pos h) b (pos m) c (pos s) (pos d) ≡ pos (a * h + b * m + c * s + d)
unfolding combine
combine-pos a h b m c s d = grind arith

-- The text of hours, minutes, seconds and a number behind the point is read as these: the number
-- behind the point counts thousandths, however many digits it has.
pub parse_time-clock_text :
    (h m s f : ℕ)
    → parse_time (clock_text h m s f) ≡ ok (pos (3600000 * h + 60000 * m + 1000 * s + f))
unfolding parse_time
parse_time-clock_text h m s f =
    let point =
      split_on-sep b'.' (decimal s) (decimal f) (decimal-Lacks_point s)
      ∙ ap (λ l. decimal s ∷ l) (split_on-last b'.' (decimal f) (decimal-Lacks_point f)) in
    simp (split-clock_text h m s f, point, parse_int-decimal)
      (ap ok (combine-pos 3600000 h 60000 m 1000 s f))
