-- ===== src/Bench/Compare/Elapsed.antt =====
-- The comparison scripts: the time in a line that /usr/bin/time has written.
use anonymous_repo.Prelude.{
  ℕ, Bool, Option, none, some, List, [], ◌∷◌, get_elem?, ℤ, pos, Result, ok, err, ◌>>=◌, or_raise,
  zero, suc, index_error, stop_iteration, value_error, if◌then◌else◌,
}
use anonymous_repo.Text.Str.{Text, codes, split, split_on}
use anonymous_repo.Text.Edit.{replace, is_in}
use anonymous_repo.Text.Number.{parse_int}
use anonymous_repo.Bench.Clock.{combine}

-- Python's floats, and what the scripts ask of them.
pub record Floats : Type 1 where
  pub Value : Type 0
  -- `float(t)`
  pub float : Text → Option Value
  -- `a + b / 1000` of integers, which is nothing when a float cannot hold it
  pub add_thousandths : ℤ → ℤ → Option Value
  -- `datetime.strptime(t, "%H:%M:%S")` raises nothing
  pub is_time_of_day : Text → Bool

-- `a, b = xs`, where any exception is caught
abbrev pub two : List Text → Option (Text × Text)
two (a ∷ b ∷ []) = some (a, b)
two _ = none

-- A chain of steps that stops at the first that gives nothing.
infixl 5 ◌and_then◌
abbrev pub ◌and_then◌ : {V W : Type 0} → Option V → (V → Option W) → Option W
none and_then next = none
some v and_then next = next v

module _ (F : Floats) where
  -- `int(minutes) * 60 + int(seconds) + int(milliseconds) / 1000`
  unfoldable pub total_seconds : Text → Text → Text → Option F.Value
  unfolding combine
  total_seconds minutes seconds milliseconds = parse_int minutes and_then λ m.
      parse_int seconds and_then λ s. parse_int milliseconds and_then λ ms.
      F.add_thousandths (combine 0 (pos 0) 60 m 1 s (pos 0)) ms

  -- `seconds, milliseconds = seconds.split(".")`, and the sum.
  unfoldable pub minutes_time : Text × Text → Option F.Value
  unfolding total_seconds
  minutes_time (minutes, seconds) =
      two (split_on b'.' seconds) and_then λ p. total_seconds minutes p.0 p.1

  -- The block under `try`: nothing if any exception is raised in it.
  unfoldable pub elapsed_time : Text → Option F.Value
  unfolding minutes_time replace
  elapsed_time line = get_elem? (split line) 2 and_then λ w.
      two (split_on b':' (replace (codes "elapsed") [] w)) and_then λ p. minutes_time p

  -- `float(line.split()[i].replace("user", ""))`
  unfoldable pub user_time : ℕ → List Text → Result (Option F.Value)
  unfolding replace
  user_time i words = do
    w ← or_raise index_error (get_elem? words i)
    t ← or_raise value_error (F.float (replace (codes "user") [] w))
    ok (some t)

  -- `datetime.strptime(w.replace("elapsed", ""), "%H:%M:%S")` raises nothing.
  abbrev pub accepts : Option Text → Bool
  accepts none = Bool.false
  accepts (some w) = F.is_time_of_day (replace (codes "elapsed") [] w)

  -- The same of `line.split()[2]`.
  unfoldable pub has_time_of_day : Text → Bool
  unfolding replace
  has_time_of_day line = accepts (get_elem? (split line) 2)

  -- The first `except`: a time of day is printed, and `exec_time` stays what it was.
  unfoldable pub or_time_of_day : Text → Option F.Value → Result (Option F.Value)
  unfolding has_time_of_day user_time
  or_time_of_day line exec_time =
      if has_time_of_day line then ok exec_time else user_time 0 (split line)

  -- The `except` of bench_comparison_mac.py.
  unfoldable pub or_user : Text → Option F.Value → Result (Option F.Value)
  unfolding user_time is_in
  or_user line exec_time =
      if is_in (codes "user") line then user_time 0 (split line) else ok exec_time

  -- `try` with an `except`: `exec_time` after it.
  abbrev pub or_else : Option F.Value → Result (Option F.Value) → Result (Option F.Value)
  or_else (some t) r = ok (some t)
  or_else none r = r

  unfoldable pub read_elapsed : Text → Option F.Value → Result (Option F.Value)
  unfolding elapsed_time or_time_of_day
  read_elapsed line exec_time = or_else (elapsed_time line) (or_time_of_day line exec_time)

  unfoldable pub read_elapsed_mac : Text → Option F.Value → Result (Option F.Value)
  unfolding elapsed_time or_user
  read_elapsed_mac line exec_time = or_else (elapsed_time line) (or_user line exec_time)

  -- bench_mac.py: `try` and `except`.
  unfoldable pub read_user : Text → Option F.Value → Result (Option F.Value)
  unfolding user_time
  read_user line exec_time = elim (user_time 0 (split line)) [
    | err e ↦ user_time 2 (split line)
    | ok t ↦ ok t
  ]

  -- `float(t)` of a cell.
  abbrev pub float_cell : Text → Result F.Value
  float_cell t = or_raise value_error (F.float t)

  -- `float(row[1])`, `float(row[2])` and so on for as many columns.
  unfoldable pub float_cells : ℕ → List Text → Result (List F.Value)
  float_cells zero cells = ok []
  float_cells (suc k) [] = err index_error
  float_cells (suc k) (cell ∷ cells) = do v ← float_cell cell; vs ← float_cells k cells; ok (v ∷ vs)

  -- A row of the file, with its name and the columns behind it.
  unfoldable pub read_row : ℕ → List Text → Result (Text × List F.Value)
  unfolding float_cells
  read_row k [] = err index_error
  read_row k (name ∷ cells) = do vs ← float_cells k cells; ok (name, vs)

  unfoldable pub read_rows : ℕ → List (List Text) → Result (List (Text × List F.Value))
  unfolding read_row
  read_rows k [] = ok []
  read_rows k (row ∷ rows) = do r ← read_row k row; rs ← read_rows k rows; ok (r ∷ rs)

  -- `next(reader)`, and the loop over the rows: StopIteration for a file without a line.
  unfoldable pub read_from_csv : ℕ → List (List Text) → Result (List (Text × List F.Value))
  unfolding read_rows
  read_from_csv k [] = err stop_iteration
  read_from_csv k (header ∷ rows) = read_rows k rows
