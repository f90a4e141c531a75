-- ===== src/Bench/Compare/Rows.antt =====
-- The comparison scripts: the rows that are taken from the outputs of the runs. A time that is not
-- assigned yet is `none`; a use of it raises UnboundLocalError, a NameError.
use anonymous_repo.Prelude.{
  Option, some, List, [], ◌∷◌, ◌++◌, Result, ok, err, ◌>>=◌, or_raise, name_error, type_error,
  if◌then◌else◌,
}
use anonymous_repo.Text.Str.{Text, split_on, split}
use anonymous_repo.Text.Edit.{is_in}
use anonymous_repo.Bench.Host.{Output, str, raw}
use anonymous_repo.Bench.Policy.{second_last}

module _ {T : Type 0} (mark : Text) (read : Text → Option T → Result (Option T)) where
  -- The body of `for line in lines`: `exec_time` after it.
  unfoldable pub read_marked : Text → Option T → Result (Option T)
  unfolding is_in
  read_marked line exec_time = if is_in mark line then read line exec_time else ok exec_time

  -- `for line in lines`, where the row is appended behind the loop.
  unfoldable pub last_time : List Text → Option T → Result (Option T)
  unfolding read_marked
  last_time [] exec_time = ok exec_time
  last_time (line ∷ lines) exec_time = do
    exec_time' ← read_marked line exec_time
    last_time lines exec_time'

  -- `for exec, output in results1`: one row for each run.
  unfoldable pub rows_per_run : List (Text × Output) → Option T → Result (List (Text × T))
  unfolding last_time split_on
  rows_per_run [] exec_time = ok []
  rows_per_run ((exec, raw bytes) ∷ rest) exec_time = err type_error
  rows_per_run ((exec, str output) ∷ rest) exec_time = do
    exec_time' ← last_time (split_on 10 output) exec_time
    t ← or_raise name_error exec_time'
    rows ← rows_per_run rest (some t)
    ok ((exec, t) ∷ rows)

  -- The body of `for line in lines`, where a row is appended at a line with the mark.
  unfoldable pub line_row : Text → Text → Option T → Result (Option T × List (Text × T))
  unfolding is_in
  line_row exec line exec_time =
      if is_in mark line
      then (do
        exec_time' ← read line exec_time
        t ← or_raise name_error exec_time'
        ok (some t, (exec, t) ∷ []))
      else ok (exec_time, [])

  unfoldable pub line_rows : Text → List Text → Option T → Result (Option T × List (Text × T))
  unfolding line_row
  line_rows exec [] exec_time = ok (exec_time, [])
  line_rows exec (line ∷ lines) exec_time = do
    (exec_time', rows) ← line_row exec line exec_time
    (last, more) ← line_rows exec lines exec_time'
    ok (last, rows ++ more)

  -- `for exec, output in results1`: one row for each line with the mark.
  unfoldable pub rows_per_line : List (Text × Output) → Option T → Result (List (Text × T))
  unfolding line_rows split_on
  rows_per_line [] exec_time = ok []
  rows_per_line ((exec, raw bytes) ∷ rest) exec_time = err type_error
  rows_per_line ((exec, str output) ∷ rest) exec_time = do
    (exec_time', rows) ← line_rows exec (split_on 10 output) exec_time
    more ← rows_per_line rest exec_time'
    ok (rows ++ more)

-- `line.split(" ")[-2]`
unfoldable pub mvvm_time : Text → Option Text → Result (Option Text)
unfolding second_last split_on
mvvm_time line exec_time = do t ← second_last (split_on 32 line); ok (some t)

-- `line.split()[-2]`
unfoldable pub mvvm_time_words : Text → Option Text → Result (Option Text)
unfolding second_last split
mvvm_time_words line exec_time = do t ← second_last (split line); ok (some t)
