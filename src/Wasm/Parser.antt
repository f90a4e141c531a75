-- ===== src/Wasm/Parser.antt =====
-- The classes WasmBase to WasmProgram: recursive descent over the stream. A constructor of a class
-- runs its `parse`, so each is an action of `Parser` here. The loop over the instructions of a
-- block takes fuel; `parse_program` hands out one round more than the stream has lines.
use anonymous_repo.Prelude.{
  ℕ, zero, suc, ◌+◌, Bool, true, false, Option, none, some, List, [], ◌∷◌, if◌then◌else◌, length, ℤ,
  negsuc, Result, ok, err, or_raise, assertion_error, value_error, out_of_fuel,
}
use anonymous_repo.Prelude
use anonymous_repo.Text.Str.{Text, text_eq}
use anonymous_repo.Text.Number.{parse_int}
use anonymous_repo.Wasm.Token.{
  Token, token_text, Class, wasm_branch, wasm_call, wasm_set, wasm_block, wasm_loop, class_of,
  func_begin, func_end, loop_begin, block_begin, block_end, op_br, op_br_if, op_br_table, op_return,
  op_call, op_call_indirect, op_return_call, op_return_call_indirect, op_set, op_tee,
}
use anonymous_repo.Wasm.Syntax.{Inst, Insts, Function, Program, fresh}
use anonymous_repo.Wasm.Stream
use anonymous_repo.Wasm.Stream.{InstStream, Line, first, second}

abbrev pub Parser {ℓ} : Type ℓ → Type ℓ
Parser A = InstStream → Result (A × InstStream)

infixl 1 ◌>>=◌ ◌>>◌
abbrev pub ◌>>=◌ {ℓ κ} : {A : Type ℓ} {B : Type κ} → Parser A → (A → Parser B) → Parser B
p >>= f = λ s. Prelude.◌>>=◌ (p s) λ (a, s'). f a s'

abbrev pub ◌>>◌ {ℓ κ} : {A : Type ℓ} {B : Type κ} → Parser A → Parser B → Parser B
p >> q = p >>= λ _. q

abbrev pub pure {ℓ} : {A : Type ℓ} → A → Parser A
pure a s = ok (a, s)

abbrev pub raise {ℓ} : {A : Type ℓ} → Result A → Parser A
raise r s = Prelude.◌>>=◌ r λ a. ok (a, s)

-- `self.expect(t)`, as a test and under `assert`.
unfoldable pub expect : Token → Parser Bool
expect t s = Prelude.◌>>=◌ (Stream.expect (token_text t) s) λ b. ok (b, s)

unfoldable pub assert_expect : Token → Parser (Unit {0})
unfolding expect
assert_expect t = do b ← expect t; raise (Prelude.assert b)

unfoldable pub next : Parser Line
next = Stream.next

-- `int(self.next()[1])`
unfoldable pub next_int : Parser ℤ
unfolding next
next_int = do line ← next; w ← raise (second line); raise (or_raise value_error (parse_int w))

abbrev pub fail {ℓ} : {A : Type ℓ} → Parser A
fail s = err assertion_error

unfoldable pub parse_branch : Parser Inst
unfolding expect next
parse_branch = do
  is_br ← expect op_br
  if is_br then (do next; pure (Inst.branch fresh)) else (do
    is_br_if ← expect op_br_if
    if is_br_if then (do next; pure (Inst.branch fresh)) else (do
      is_br_table ← expect op_br_table
      if is_br_table then (do next; pure (Inst.branch fresh)) else (do
        is_return ← expect op_return
        if is_return then (do next; pure (Inst.branch fresh)) else fail)))

-- An indirect call keeps the initial `callee_idx` of -1.
unfoldable pub parse_call : Parser Inst
unfolding expect next next_int
parse_call = do
  is_call ← expect op_call
  if is_call then (do z ← next_int; pure (Inst.call fresh z)) else (do
    is_indirect ← expect op_call_indirect
    if is_indirect then (do next; pure (Inst.call fresh (negsuc 0))) else (do
      is_return_call ← expect op_return_call
      if is_return_call then fail else (do
        is_return_call_indirect ← expect op_return_call_indirect
        if is_return_call_indirect then fail else fail)))

unfoldable pub parse_set : Parser Inst
unfolding expect next_int
parse_set = do
  is_set ← expect op_set
  if is_set then (do z ← next_int; pure (Inst.set fresh z)) else (do
    is_tee ← expect op_tee
    if is_tee then (do z ← next_int; pure (Inst.set fresh z)) else fail)

-- `WasmLoop.parse` and `WasmBlock.parse` around the loop that both contain.
unfoldable pub parse_loop : Parser Insts → Parser Inst
unfolding assert_expect next next_int
parse_loop insts = do
  assert_expect loop_begin
  loop_idx ← next_int
  is ← insts
  assert_expect block_end
  next
  pure (Inst.loop fresh loop_idx is)

unfoldable pub parse_block : Parser Insts → Parser Inst
unfolding assert_expect next
parse_block insts = do
  assert_expect block_begin
  next
  is ← insts
  assert_expect block_end
  next
  pure (Inst.block fresh is)

-- `inst_cls(self.inst_stream)`
unfoldable pub construct : Parser Insts → Class → Parser Inst
unfolding parse_branch parse_call parse_set parse_loop parse_block
construct insts wasm_branch = parse_branch
construct insts wasm_call = parse_call
construct insts wasm_set = parse_set
construct insts wasm_loop = parse_loop insts
construct insts wasm_block = parse_block insts

unfoldable pub peek_word : Parser Text
peek_word s = Prelude.◌>>=◌ (Stream.peek s) λ line. Prelude.◌>>=◌ (first line) λ w. ok (w, s)

unfoldable pub parse_insts : ℕ → Parser Insts
unfolding peek_word construct
parse_insts zero s = err out_of_fuel
parse_insts (suc f) s =
    let again : Parser Insts = (do
      inst_type ← peek_word
      if text_eq inst_type (token_text block_end) then pure Insts.end else (do
        cls ← raise (or_raise assertion_error (class_of inst_type))
        inst ← construct (parse_insts f) cls
        rest ← parse_insts f
        pure (Insts.cons inst rest))) in
    if Stream.end s then ok (Insts.end, s) else again s

unfoldable pub parse_function : ℕ → Parser Function
unfolding assert_expect next next_int parse_block parse_insts
parse_function f = do
  assert_expect func_begin
  func_idx ← next_int
  block ← parse_block (parse_insts f)
  assert_expect func_end
  next
  pure (record { info = fresh; func_idx = func_idx; block = block })

-- `WasmProgram.parse`: the first number is the fuel of this loop, the second that of the blocks.
unfoldable pub parse_funcs : ℕ → ℕ → Parser Program
unfolding parse_function
parse_funcs zero f s = err out_of_fuel
parse_funcs (suc n) f s =
    let again : Parser Program = (do
      func ← parse_function f
      rest ← parse_funcs n f
      pure (func ∷ rest)) in
    if Stream.end s then ok ([], s) else again s

unfoldable pub parse_program : InstStream → Result (Program × InstStream)
parse_program s = let f = suc (length s.insts) in parse_funcs f f s
