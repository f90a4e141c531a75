-- ===== src/Wasm/Sound/Balance.antt =====
-- The blocks of a file that is parsed as a whole.
use anonymous_repo.Prelude.{
  ℕ, ◌+◌, ◌≡◌, refl, sym, ◌∙◌, ap, Bool, true, false, ◌||◌, List, [], ◌∷◌, ◌++◌, append_assoc,
  if◌then◌else◌, arith, ok,
}
use mathlib.Core.Path.{subst}
use anonymous_repo.Text.Str.{text_eq}
use anonymous_repo.Wasm.Token.{
  Token, token_text, func_begin, func_end, loop_begin, block_begin, block_end, op_br, op_br_if,
  op_br_table, op_return, op_call, op_call_indirect, op_return_call, op_return_call_indirect,
  op_set, op_tee,
}
use anonymous_repo.Wasm.Syntax.{Op, Body, Function, Program}
use anonymous_repo.Wasm.Stream.{Line, stream_at}
use anonymous_repo.Wasm.Grammar.{IsOp, IsBody, IsFunction, IsProgram, is_branch_token, is_set_token}
use anonymous_repo.Wasm.Parser.{parse_program}
use anonymous_repo.Wasm.Sound.Program.{parse_program_iff}

-- The line begins with the word.
unfoldable pub begins_with : Token → Line → Bool
unfolding token_text text_eq
begins_with t [] = false
begins_with t (w ∷ ws) = text_eq w (token_text t)

-- The number of lines that begin a block or a loop, and of lines that end one.
unfoldable pub begins : List Line → ℕ
unfolding begins_with
begins [] = 0
begins (l ∷ ls) =
    (if begins_with block_begin l || begins_with loop_begin l then 1 else 0) + begins ls

unfoldable pub ends : List Line → ℕ
unfolding begins_with
ends [] = 0
ends (l ∷ ls) = (if begins_with block_end l then 1 else 0) + ends ls

begins-append : (ls ks : List Line) → begins (ls ++ ks) ≡ begins ls + begins ks
unfolding begins
begins-append [] ks = omega arith
begins-append (l ∷ ls) ks = let rest = begins-append ls ks in omega arith

ends-append : (ls ks : List Line) → ends (ls ++ ks) ≡ ends ls + ends ks
unfolding ends
ends-append [] ks = omega arith
ends-append (l ∷ ls) ks = let rest = ends-append ls ks in omega arith

-- The line neither begins nor ends a block.
abbrev IsNeutral : Line → Type 0
IsNeutral l = (begins (l ∷ []) ≡ 0) × (ends (l ∷ []) ≡ 0)

branch-IsNeutral :
    (t : Token) (ws : Line) → is_branch_token t ≡ true → IsNeutral (token_text t ∷ ws)
unfolding begins ends begins_with token_text text_eq
branch-IsNeutral func_begin ws h = cc
branch-IsNeutral func_end ws h = cc
branch-IsNeutral loop_begin ws h = cc
branch-IsNeutral block_begin ws h = cc
branch-IsNeutral block_end ws h = cc
branch-IsNeutral op_br ws h = (refl, refl)
branch-IsNeutral op_br_if ws h = (refl, refl)
branch-IsNeutral op_br_table ws h = (refl, refl)
branch-IsNeutral op_return ws h = (refl, refl)
branch-IsNeutral op_call ws h = cc
branch-IsNeutral op_call_indirect ws h = cc
branch-IsNeutral op_return_call ws h = cc
branch-IsNeutral op_return_call_indirect ws h = cc
branch-IsNeutral op_set ws h = cc
branch-IsNeutral op_tee ws h = cc

set-IsNeutral : (t : Token) (ws : Line) → is_set_token t ≡ true → IsNeutral (token_text t ∷ ws)
unfolding begins ends begins_with token_text text_eq
set-IsNeutral func_begin ws h = cc
set-IsNeutral func_end ws h = cc
set-IsNeutral loop_begin ws h = cc
set-IsNeutral block_begin ws h = cc
set-IsNeutral block_end ws h = cc
set-IsNeutral op_br ws h = cc
set-IsNeutral op_br_if ws h = cc
set-IsNeutral op_br_table ws h = cc
set-IsNeutral op_return ws h = cc
set-IsNeutral op_call ws h = cc
set-IsNeutral op_call_indirect ws h = cc
set-IsNeutral op_return_call ws h = cc
set-IsNeutral op_return_call_indirect ws h = cc
set-IsNeutral op_set ws h = (refl, refl)
set-IsNeutral op_tee ws h = (refl, refl)

call-IsNeutral :
    (ws : Line) → IsNeutral (token_text op_call ∷ ws) × IsNeutral (token_text op_call_indirect ∷ ws)
unfolding begins ends begins_with token_text text_eq
call-IsNeutral ws = ((refl, refl), (refl, refl))

edge-counts :
    (ws : Line)
    → (begins ((token_text block_begin ∷ ws) ∷ []) ≡ 1)
      × (ends ((token_text block_begin ∷ ws) ∷ []) ≡ 0)
      × (begins ((token_text loop_begin ∷ ws) ∷ []) ≡ 1)
      × (ends ((token_text loop_begin ∷ ws) ∷ []) ≡ 0)
      × (begins ((token_text block_end ∷ ws) ∷ []) ≡ 0)
      × (ends ((token_text block_end ∷ ws) ∷ []) ≡ 1)
unfolding begins ends begins_with token_text text_eq
edge-counts ws = (refl, refl, refl, refl, refl, refl)

func-IsNeutral :
    (ws : Line) → IsNeutral (token_text func_begin ∷ ws) × IsNeutral (token_text func_end ∷ ws)
unfolding begins ends begins_with token_text text_eq
func-IsNeutral ws = ((refl, refl), (refl, refl))

abbrev pub IsBalanced : List Line → Type 0
IsBalanced ls = begins ls ≡ ends ls

nil-IsBalanced : IsBalanced []
unfolding begins ends
nil-IsBalanced = refl

append-IsBalanced : (ks ls : List Line) → IsBalanced ks → IsBalanced ls → IsBalanced (ks ++ ls)
append-IsBalanced ks ls h k = omega (arith, begins-append ks ls, ends-append ks ls)

neutral-IsBalanced : (l : Line) → IsNeutral l → IsBalanced (l ∷ [])
neutral-IsBalanced l (h, k) = omega arith

-- A line that begins, balanced lines, and a line that ends.
around-IsBalanced :
    (l e : Line) (ls : List Line)
    → begins (l ∷ []) ≡ 1
    → ends (l ∷ []) ≡ 0
    → begins (e ∷ []) ≡ 0
    → ends (e ∷ []) ≡ 1
    → IsBalanced ls
    → IsBalanced (l ∷ (ls ++ e ∷ []))
around-IsBalanced l e ls a b c d h =
    let x = begins-append (l ∷ []) (ls ++ e ∷ []) in
    let y = ends-append (l ∷ []) (ls ++ e ∷ []) in
    let x' = begins-append ls (e ∷ []) in let y' = ends-append ls (e ∷ []) in omega arith

mutual
  op-IsBalanced_aux : (ls : List Line) (o : Op) → IsOp ls o → IsBalanced ls
  op-IsBalanced_aux ls o (IsOp.branch t ws h) =
      neutral-IsBalanced (token_text t ∷ ws) (branch-IsNeutral t ws h)
  op-IsBalanced_aux ls o (IsOp.call w ws z h) =
      neutral-IsBalanced (token_text op_call ∷ w ∷ ws) (call-IsNeutral (w ∷ ws)).0
  op-IsBalanced_aux ls o (IsOp.call_indirect ws) =
      neutral-IsBalanced (token_text op_call_indirect ∷ ws) (call-IsNeutral ws).1
  op-IsBalanced_aux ls o (IsOp.set t w ws z h k) =
      neutral-IsBalanced (token_text t ∷ w ∷ ws) (set-IsNeutral t (w ∷ ws) h)
  op-IsBalanced_aux ls o (IsOp.loop w ws vs k ks b h q e) =
      let (b0, e0, b1, e1, b2, e2) = edge-counts (w ∷ ws) in
      let (c0, f0, c1, f1, c2, f2) = edge-counts vs in
      subst IsBalanced (sym e) (
        around-IsBalanced (token_text loop_begin ∷ w ∷ ws) (token_text block_end ∷ vs) ks b1 e1 c2
          f2 (body-IsBalanced ks b q))
  op-IsBalanced_aux ls o (IsOp.block ws vs ks b q e) =
      let (b0, e0, b1, e1, b2, e2) = edge-counts ws in
      let (c0, f0, c1, f1, c2, f2) = edge-counts vs in
      subst IsBalanced (sym e) (
        around-IsBalanced (token_text block_begin ∷ ws) (token_text block_end ∷ vs) ks b0 e0 c2 f2
          (body-IsBalanced ks b q))

  body-IsBalanced : (ls : List Line) (b : Body) → IsBody ls b → IsBalanced ls
  body-IsBalanced ls b IsBody.end = nil-IsBalanced
  body-IsBalanced ls b (IsBody.cons ks ms o c h q e) =
      subst IsBalanced (sym e)
        (append-IsBalanced ks ms (op-IsBalanced_aux ks o h) (body-IsBalanced ms c q))

function-IsBalanced : (ls : List Line) (f : Function) → IsFunction ls f → IsBalanced ls
function-IsBalanced ls f (IsFunction.function w ws us vs xs k ks b h q e) =
    let first = token_text func_begin ∷ w ∷ ws in
    let opening = token_text block_begin ∷ us in
    let close = token_text block_end ∷ vs in
    let last = token_text func_end ∷ xs in
    let (b0, e0, b1, e1, b2, e2) = edge-counts us in
    let (c0, f0, c1, f1, c2, f2) = edge-counts vs in
    let inner = around-IsBalanced opening close ks b0 e0 c2 f2 (body-IsBalanced ks b q) in
    let whole =
      append-IsBalanced (first ∷ []) ((opening ∷ (ks ++ close ∷ [])) ++ last ∷ [])
        (neutral-IsBalanced first (func-IsNeutral (w ∷ ws)).0)
        (append-IsBalanced (opening ∷ (ks ++ close ∷ [])) (last ∷ []) inner
          (neutral-IsBalanced last (func-IsNeutral xs).1)) in
    subst IsBalanced
      (ap (λ t. first ∷ opening ∷ t) (append_assoc ks (close ∷ []) (last ∷ [])) ∙ sym e) whole

program-IsBalanced : (ls : List Line) (p : Program) → IsProgram ls p → IsBalanced ls
program-IsBalanced ls p IsProgram.nil = nil-IsBalanced
program-IsBalanced ls p (IsProgram.cons ks ms f q h r e) =
    subst IsBalanced (sym e)
      (append-IsBalanced ks ms (function-IsBalanced ks f h) (program-IsBalanced ms q r))

-- A file that the parser reads as a whole has as many lines that begin a block or a loop as lines that
-- end one.
pub parse_program-IsBalanced :
    (ls : List Line) (p : Program)
    → parse_program (stream_at [] ls) ≡ ok (p, stream_at ls [])
    → IsBalanced ls
parse_program-IsBalanced ls p h = program-IsBalanced ls p ((parse_program_iff ls p).0 h)
