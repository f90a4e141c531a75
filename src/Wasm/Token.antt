-- ===== src/Wasm/Token.antt =====
-- The words of the instruction file, and the class that parses each (`token_to_class`).
use anonymous_repo.Prelude.{Option, none, some, List, [], ◌∷◌, if◌then◌else◌}
use anonymous_repo.Text.Str.{Text, codes, text_eq}

pub data Token : Type 0 where
  func_begin func_end loop_begin block_begin block_end : Token
  op_br op_br_if op_br_table op_return : Token
  op_call op_call_indirect op_return_call op_return_call_indirect : Token
  op_set op_tee : Token

unfoldable pub token_text : Token → Text
token_text func_begin = codes "begin_func"
token_text func_end = codes "end_func"
token_text loop_begin = codes "begin_loop"
token_text block_begin = codes "begin_block"
token_text block_end = codes "end_block"
token_text op_br = codes "op_br"
token_text op_br_if = codes "op_br_if"
token_text op_br_table = codes "op_br_table"
token_text op_return = codes "op_return"
token_text op_call = codes "op_call"
token_text op_call_indirect = codes "op_call_indirect"
token_text op_return_call = codes "op_return_call"
token_text op_return_call_indirect = codes "op_return_call_indirect"
token_text op_set = codes "op_set"
token_text op_tee = codes "op_tee"

pub data Class : Type 0 where
  wasm_branch wasm_call wasm_set wasm_block wasm_loop : Class

unfoldable pub token_to_class : List (Token × Class)
token_to_class =
    (op_br, wasm_branch)
    ∷ (op_br_if, wasm_branch)
    ∷ (op_br_table, wasm_branch)
    ∷ (op_return, wasm_branch)
    ∷ (op_call, wasm_call)
    ∷ (op_call_indirect, wasm_call)
    ∷ (op_return_call, wasm_call)
    ∷ (op_return_call_indirect, wasm_call)
    ∷ (op_set, wasm_set)
    ∷ (op_tee, wasm_set)
    ∷ (block_begin, wasm_block)
    ∷ (loop_begin, wasm_loop)
    ∷ []

-- `inst_type in token_to_class`, and the class found there.
unfoldable pub find_class : Text → List (Token × Class) → Option Class
unfolding token_text text_eq
find_class w [] = none
find_class w ((t, c) ∷ m) = if text_eq w (token_text t) then some c else find_class w m

unfoldable pub class_of : Text → Option Class
unfolding find_class token_to_class
class_of w = find_class w token_to_class
