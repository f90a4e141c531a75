-- ===== src/Wasm/Grammar.antt =====
-- The instruction file as a grammar: which lines stand for which tree. Words behind those that the
-- parser reads are free. An indirect call stands for a call of -1.
use anonymous_repo.Prelude.{◌≡◌, Bool, true, false, some, List, [], ◌∷◌, ◌++◌, ℤ, negsuc}
use anonymous_repo.Text.Str.{Text}
use anonymous_repo.Text.Number.{parse_int}
use anonymous_repo.Wasm.Token.{
  Token, token_text, func_begin, func_end, loop_begin, block_begin, block_end, op_br, op_br_if,
  op_br_table, op_return, op_call, op_call_indirect, op_set, op_tee,
}
use anonymous_repo.Wasm.Syntax.{Op, Body, Function, Program, plain, fresh}
use anonymous_repo.Wasm.Stream.{Line}

abbrev pub is_branch_token : Token → Bool
is_branch_token op_br = true
is_branch_token op_br_if = true
is_branch_token op_br_table = true
is_branch_token op_return = true
is_branch_token _ = false

abbrev pub is_set_token : Token → Bool
is_set_token op_set = true
is_set_token op_tee = true
is_set_token _ = false

mutual
  pub data IsOp : List Line → Op → Type 0 where
    branch :
        (t : Token) (ws : Line)
        → is_branch_token t ≡ true
        → IsOp ((token_text t ∷ ws) ∷ []) Op.branch
    call :
        (w : Text) (ws : Line) (z : ℤ)
        → parse_int w ≡ some z
        → IsOp ((token_text op_call ∷ w ∷ ws) ∷ []) (Op.call z)
    call_indirect :
        (ws : Line) → IsOp ((token_text op_call_indirect ∷ ws) ∷ []) (Op.call (negsuc 0))
    set :
        (t : Token) (w : Text) (ws : Line) (z : ℤ)
        → is_set_token t ≡ true
        → parse_int w ≡ some z
        → IsOp ((token_text t ∷ w ∷ ws) ∷ []) (Op.set z)
    loop :
        (w : Text) (ws vs : Line) (k : ℤ) (ls : List Line) (b : Body) {all : List Line}
        → parse_int w ≡ some k
        → IsBody ls b
        → all ≡ (token_text loop_begin ∷ w ∷ ws) ∷ (ls ++ (token_text block_end ∷ vs) ∷ [])
        → IsOp all (Op.loop k b)
    block :
        (ws vs : Line) (ls : List Line) (b : Body) {all : List Line}
        → IsBody ls b
        → all ≡ (token_text block_begin ∷ ws) ∷ (ls ++ (token_text block_end ∷ vs) ∷ [])
        → IsOp all (Op.block b)

  pub data IsBody : List Line → Body → Type 0 where
    end : IsBody [] Body.end
    cons :
        (ks ls : List Line) (o : Op) (b : Body) {all : List Line}
        → IsOp ks o
        → IsBody ls b
        → all ≡ ks ++ ls
        → IsBody all (Body.cons o b)

pub data IsFunction : List Line → Function → Type 0 where
  function :
      (w : Text) (ws us vs xs : Line) (k : ℤ) (ls : List Line) (b : Body) {all : List Line}
      → parse_int w ≡ some k
      → IsBody ls b
      → all
        ≡ (token_text func_begin ∷ w ∷ ws)
          ∷ (token_text block_begin ∷ us)
          ∷ (ls ++ (token_text block_end ∷ vs) ∷ (token_text func_end ∷ xs) ∷ [])
      → IsFunction all (record { info = fresh; func_idx = k; block = plain (Op.block b) })

pub data IsProgram : List Line → Program → Type 0 where
  nil : IsProgram [] []
  cons :
      (ks ls : List Line) (f : Function) (p : Program) {all : List Line}
      → IsFunction ks f
      → IsProgram ls p
      → all ≡ ks ++ ls
      → IsProgram all (f ∷ p)
