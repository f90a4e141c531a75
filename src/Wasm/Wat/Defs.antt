-- ===== src/Wasm/Wat/Defs.antt =====
-- `wat_to_inst`. The lines of the file that it reads are its argument, and the strings that it
-- writes are its result; an exception loses the file.
use anonymous_repo.Prelude.{
  ℕ, ◌+◌, Bool, true, false, ◌||◌, List, [], ◌∷◌, ◌++◌, map, ◌==◌, if◌then◌else◌, length, filter_if,
  ℤ, pos, sub_ℕ, Result, ok, err, ◌>>=◌, or_raise, assertion_error, value_error,
}
use anonymous_repo.Text.Str.{
  Text, codes, text_eq, strip, strip_where, starts_with, find_after, split,
}
use anonymous_repo.Text.Number.{parse_int, show_int}
use anonymous_repo.Wasm.Stream.{first, second}

-- `line.strip()`, then `line.strip(")")`.
unfoldable pub clean : Text → Text
clean line = strip_where (λ c. c == b')') (strip line)

unfoldable pub critical_line : Text → Bool
critical_line line =
    starts_with (codes "(func") line
    || starts_with (codes "block") line
    || starts_with (codes "loop") line
    || starts_with (codes "end") line
    || starts_with (codes "br") line
    || starts_with (codes "return") line
    || starts_with (codes "local.tee") line
    || starts_with (codes "local.set") line
    || starts_with (codes "call") line
    || starts_with (codes "call_indirect") line

-- `func_name_to_idx`, with its keys in the order of insertion.
abbrev pub Names : Type 0
Names = List (Text × ℤ)

unfoldable pub has_name : Text → Names → Bool
has_name name [] = false
has_name name ((k, v) ∷ m) = text_eq k name || has_name name m

-- `func_name_to_idx[func_name] = len(func_name_to_idx)` behind its check.
unfoldable pub register : Text → Names → Result Names
register name m =
    if has_name name m then err assertion_error else ok (m ++ (name, pos (length m)) ∷ [])

-- The loop that gathers the names, with `import_func_cnt`.
unfoldable pub register_import : Text → Names × ℕ → Result (Names × ℕ)
register_import line (m, import_func_cnt) =
    if starts_with (codes "(import ") line
    then (do
      rest ← or_raise assertion_error (find_after (codes "(func ") line)
      func_name ← first (split rest)
      m' ← register func_name m
      ok (m', import_func_cnt + 1))
    else ok (m, import_func_cnt)

unfoldable pub register_func : Text → Names × ℕ → Result (Names × ℕ)
register_func line (m, import_func_cnt) =
    if starts_with (codes "(func") line
    then (do func_name ← second (split line); m' ← register func_name m; ok (m', import_func_cnt))
    else ok (m, import_func_cnt)

unfoldable pub gather : List Text → Names × ℕ → Result (Names × ℕ)
gather [] s = ok s
gather (line ∷ wat) s = do s₁ ← register_import line s; s₂ ← register_func line s₁; gather wat s₂

-- `v - n` of integers, for a number `n`.
unfoldable pub minus : ℤ → ℕ → ℤ
minus (pos v) n = sub_ℕ v n
minus (ℤ.negsuc v) n = ℤ.negsuc (v + n)

unfoldable pub relocate : ℕ → Names → Names
relocate n [] = []
relocate n ((k, v) ∷ m) = (k, minus v n) ∷ relocate n m

unfoldable pub lookup_func_idx : Text → Names → Result ℤ
lookup_func_idx name [] = err assertion_error
lookup_func_idx name ((k, v) ∷ m) = if text_eq k name then ok v else lookup_func_idx name m

pub record State : Type 0 where
  pub func_idx : ℕ
  pub loop_idx : ℕ
  pub first_func : Bool

abbrev pub start : State
start = record { func_idx = 0; loop_idx = 0; first_func = true }

-- `int(line.split()[1])`
unfoldable pub operand : Text → Result ℤ
operand line = do w ← second (split line); or_raise value_error (parse_int w)

abbrev pub newline : Text
newline = 10 ∷ []

unfoldable pub begin_func : State → Text
begin_func s =
    (if s.first_func then [] else codes "end_block" ++ newline ++ codes "end_func" ++ newline)
    ++ codes "begin_func "
    ++ show_int (pos s.func_idx)
    ++ newline
    ++ codes "begin_block"
    ++ newline

-- The body of the loop over the critical lines: the state, and what it writes.
unfoldable pub translate_line : Names → State → Text → Result (State × Text)
translate_line m s line =
    if starts_with (codes "(func") line
    then ok (record { func_idx = s.func_idx + 1; loop_idx = 0; first_func = false }, begin_func s)
    else if starts_with (codes "block") line
    then ok (s, codes "begin_block" ++ newline)
    else if starts_with (codes "loop") line
    then ok (
      record s { loop_idx = s.loop_idx + 1 },
      codes "begin_loop " ++ show_int (pos s.loop_idx) ++ newline,
    )
    else if starts_with (codes "end") line
    then ok (s, codes "end_block" ++ newline)
    else if starts_with (codes "br_if") line
    then (do depth ← operand line; ok (s, codes "op_br_if " ++ show_int depth ++ newline))
    else if starts_with (codes "br_table") line
    then ok (s, codes "op_br_table" ++ newline)
    else if starts_with (codes "br") line
    then (do depth ← operand line; ok (s, codes "op_br " ++ show_int depth ++ newline))
    else if starts_with (codes "return") line
    then ok (s, codes "op_return" ++ newline)
    else if starts_with (codes "local.tee") line
    then (do local_idx ← operand line; ok (s, codes "op_tee " ++ show_int local_idx ++ newline))
    else if starts_with (codes "local.set") line
    then (do local_idx ← operand line; ok (s, codes "op_set " ++ show_int local_idx ++ newline))
    else if starts_with (codes "call_indirect") line
    then ok (s, codes "op_call_indirect" ++ newline)
    else if starts_with (codes "call") line
    then (do
      name ← second (split line)
      callee_idx ← lookup_func_idx name m
      ok (s, codes "op_call " ++ show_int callee_idx ++ newline))
    else err assertion_error

unfoldable pub translate_lines : Names → State → List Text → Result (State × Text)
translate_lines m s [] = ok (s, [])
translate_lines m s (line ∷ wat) = do
  (s₁, written) ← translate_line m s line
  (s₂, more) ← translate_lines m s₁ wat
  ok (s₂, written ++ more)

-- What is written behind the last line.
unfoldable pub finish : State → Text
finish s = if s.first_func then [] else codes "end_block" ++ newline ++ codes "end_func" ++ newline

-- The lines of the text form, to the contents of the instruction file.
unfoldable pub wat_to_inst : List Text → Result Text
wat_to_inst lines = do
  let wat = map clean lines
  (m, import_func_cnt) ← gather wat ([], 0)
  (s, written) ← translate_lines (relocate import_func_cnt m) start (filter_if critical_line wat)
  ok (written ++ finish s)
