-- ===== src/Wasm/Complete.antt =====
-- The parser reads what the grammar allows.
use anonymous_repo.Prelude.{
  ℕ, zero, suc, ◌<◌, ◌≡◌, true, false, some, List, [], ◌∷◌, ◌++◌, append_assoc, append-nil, arith,
  length, length-append, ℤ, negsuc, ok,
}
use anonymous_repo.Text.Str.{Text, text_eq}
use anonymous_repo.Text.Number.{parse_int}
use anonymous_repo.Wasm.Token.{
  Token, token_text, func_begin, func_end, loop_begin, block_begin, block_end, op_br, op_br_if,
  op_br_table, op_return, op_call, op_call_indirect, op_set, op_tee, class_of,
}
use anonymous_repo.Wasm.Syntax.{Insts, Op, Body, Function, Program, plain, plain_insts}
use anonymous_repo.Wasm.Stream
use anonymous_repo.Wasm.Stream.{
  Line, second, first, stream_at, next-stream_at, peek-stream_at, expect-stream_at, end-stream_at,
  end-stream_at_nil,
}
use anonymous_repo.Wasm.Grammar.{
  branch, call, call_indirect, set, loop, block, end, cons, function, nil, is_branch_token,
  is_set_token, IsOp, IsBody, IsFunction, IsProgram,
}
use anonymous_repo.Wasm.Parser.{
  ◌>>=◌, pure, peek_word, peek_word, parse_insts, parse_function, parse_funcs, parse_program,
}

ruleset steps = (expect-stream_at, next-stream_at, peek-stream_at, end-stream_at)

-- One round of the loop reads an operation, if there is enough fuel for the blocks inside it.
abbrev ReadsOp : List Line → Op → Type 0
ReadsOp ks o =
    (d rest : List Line) (f : ℕ)
    → length ks < suc (suc f)
    → parse_insts (suc f) (stream_at d (ks ++ rest))
      ≡ (do is ← parse_insts f; pure (Insts.cons (plain o) is)) (stream_at (d ++ ks) rest)

abbrev ReadsBody : List Line → Body → Type 0
ReadsBody ls b =
    (d rest : List Line) (vs : Line) (f : ℕ)
    → length ls < f
    → parse_insts f (stream_at d (ls ++ (token_text block_end ∷ vs) ∷ rest))
      ≡ ok (plain_insts b, stream_at (d ++ ls) ((token_text block_end ∷ vs) ∷ rest))

bracket_fuel :
    (x : Line) (ls : List Line) (y : Line) (f : ℕ)
    → length (x ∷ (ls ++ y ∷ [])) < suc (suc f)
    → length ls < f
bracket_fuel x ls y f h = omega (arith, length-append ls (y ∷ []))

split_fuel :
    (ks ls : List Line) (f : ℕ)
    → 0 < length ks
    → length (ks ++ ls) < suc f
    → (length ks < suc (suc f)) × (length ls < f)
split_fuel ks ls f p h = omega (arith, length-append ks ls)

end-ReadsBody : ReadsBody [] Body.end
unfolding parse_insts token_text text_eq peek_word first plain
end-ReadsBody d rest vs zero lt = absurd (omega arith)
end-ReadsBody d rest vs (suc f) lt = simp (steps, append-nil)

branch-ReadsOp :
    (t : Token) (ws : Line)
    → is_branch_token t ≡ true
    → ReadsOp ((token_text t ∷ ws) ∷ []) Op.branch
unfolding parse_insts token_text text_eq class_of peek_word first plain
branch-ReadsOp op_br ws h d rest f lt = simp steps
branch-ReadsOp op_br_if ws h d rest f lt = simp steps
branch-ReadsOp op_br_table ws h d rest f lt = simp steps
branch-ReadsOp op_return ws h d rest f lt = simp steps
branch-ReadsOp _ ws h d rest f lt = cc

call-ReadsOp :
    (w : Text) (ws : Line) (z : ℤ)
    → parse_int w ≡ some z
    → ReadsOp ((token_text op_call ∷ w ∷ ws) ∷ []) (Op.call z)
unfolding parse_insts token_text text_eq class_of peek_word first second plain
call-ReadsOp w ws z h d rest f lt = simp (steps, h)

call_indirect-ReadsOp :
    (ws : Line) → ReadsOp ((token_text op_call_indirect ∷ ws) ∷ []) (Op.call (negsuc 0))
unfolding parse_insts token_text text_eq class_of peek_word first plain
call_indirect-ReadsOp ws d rest f lt = simp steps

set-ReadsOp :
    (t : Token) (w : Text) (ws : Line) (z : ℤ)
    → is_set_token t ≡ true
    → parse_int w ≡ some z
    → ReadsOp ((token_text t ∷ w ∷ ws) ∷ []) (Op.set z)
unfolding parse_insts token_text text_eq class_of peek_word first second plain
set-ReadsOp op_set w ws z h p d rest f lt = simp (steps, p)
set-ReadsOp op_tee w ws z h p d rest f lt = simp (steps, p)
set-ReadsOp _ w ws z h p d rest f lt = cc

loop-ReadsOp :
    (w : Text) (ws vs : Line) (k : ℤ) (ls : List Line) (b : Body) (all : List Line)
    → parse_int w ≡ some k
    → ReadsBody ls b
    → all ≡ (token_text loop_begin ∷ w ∷ ws) ∷ (ls ++ (token_text block_end ∷ vs) ∷ [])
    → ReadsOp all (Op.loop k b)
unfolding parse_insts token_text text_eq class_of peek_word first second plain
loop-ReadsOp w ws vs k ls b all p ih e d rest f lt =
    let inside = ih (d ++ (token_text loop_begin ∷ w ∷ ws) ∷ []) rest vs f (
      bracket_fuel (token_text loop_begin ∷ w ∷ ws) ls (token_text block_end ∷ vs) f
        (rw e at lt)) in
    simp (e, append_assoc, steps, p, inside)

block-ReadsOp :
    (ws vs : Line) (ls : List Line) (b : Body) (all : List Line)
    → ReadsBody ls b
    → all ≡ (token_text block_begin ∷ ws) ∷ (ls ++ (token_text block_end ∷ vs) ∷ [])
    → ReadsOp all (Op.block b)
unfolding parse_insts token_text text_eq class_of peek_word first plain
block-ReadsOp ws vs ls b all ih e d rest f lt =
    let inside =
      ih (d ++ (token_text block_begin ∷ ws) ∷ []) rest vs f (
        bracket_fuel (token_text block_begin ∷ ws) ls (token_text block_end ∷ vs) f (rw e at lt)) in
    simp (e, append_assoc, steps, inside)

pub IsOp-length_pos : {ks : List Line} {o : Op} → IsOp ks o → 0 < length ks
IsOp-length_pos (branch t ws h) = omega arith
IsOp-length_pos (call w ws z h) = omega arith
IsOp-length_pos (call_indirect ws) = omega arith
IsOp-length_pos (set t w ws z h k) = omega arith
IsOp-length_pos (loop w ws vs k ls b p h e) = rw e (omega arith)
IsOp-length_pos (block ws vs ls b h e) = rw e (omega arith)

cons-ReadsBody :
    (ks ls : List Line) (o : Op) (b : Body) (all : List Line)
    → IsOp ks o
    → ReadsOp ks o
    → ReadsBody ls b
    → all ≡ ks ++ ls
    → ReadsBody all (Body.cons o b)
unfolding plain
cons-ReadsBody ks ls o b all i h k e d rest vs zero lt = absurd (omega arith)
cons-ReadsBody ks ls o b all i h k e d rest vs (suc f) lt =
    let (front, back) = split_fuel ks ls f (IsOp-length_pos i) (rw e at lt) in
    let tail = (token_text block_end ∷ vs) ∷ rest in
    simp (e, append_assoc)
      (rw (h d (ls ++ tail) f front) (simp (k (d ++ ks) rest vs f back, append_assoc)))

mutual
  IsOp-ReadsOp : {ks : List Line} {o : Op} → IsOp ks o → ReadsOp ks o
  IsOp-ReadsOp (branch t ws h) = branch-ReadsOp t ws h
  IsOp-ReadsOp (call w ws z h) = call-ReadsOp w ws z h
  IsOp-ReadsOp (call_indirect ws) = call_indirect-ReadsOp ws
  IsOp-ReadsOp (set t w ws z h p) = set-ReadsOp t w ws z h p
  IsOp-ReadsOp (loop w ws vs k ls b p h e) =
      loop-ReadsOp w ws vs k ls b _ p (IsBody-ReadsBody_aux h) e
  IsOp-ReadsOp (block ws vs ls b h e) = block-ReadsOp ws vs ls b _ (IsBody-ReadsBody_aux h) e

  IsBody-ReadsBody_aux : {ls : List Line} {b : Body} → IsBody ls b → ReadsBody ls b
  IsBody-ReadsBody_aux end = end-ReadsBody
  IsBody-ReadsBody_aux (cons ks ls o b h k e) =
      cons-ReadsBody ks ls o b _ h (IsOp-ReadsOp h) (IsBody-ReadsBody_aux k) e

pub IsBody-ReadsBody :
    {ls : List Line} {b : Body}
    → IsBody ls b
    → (d rest : List Line) (vs : Line) (f : ℕ) → length ls < f
    → parse_insts f (stream_at d (ls ++ (token_text block_end ∷ vs) ∷ rest))
      ≡ ok (plain_insts b, stream_at (d ++ ls) ((token_text block_end ∷ vs) ∷ rest))
IsBody-ReadsBody h = IsBody-ReadsBody_aux h

pub IsFunction-length_pos : {ks : List Line} {g : Function} → IsFunction ks g → 0 < length ks
IsFunction-length_pos (function w ws us vs xs k ls b p h e) = rw e (omega arith)

parts_fuel : (ks ls : List Line) (f : ℕ) → length (ks ++ ls) < f → (length ks < f) × (length ls < f)
parts_fuel ks ls f h = omega (arith, length-append ks ls)

nonempty_append : (ks ls : List Line) → 0 < length ks → 0 < length (ks ++ ls)
nonempty_append ks ls h = omega (arith, length-append ks ls)

function_fuel :
    (x y z w : Line) (ls : List Line) (f : ℕ)
    → length (x ∷ y ∷ (ls ++ z ∷ w ∷ [])) < f
    → length ls < f
function_fuel x y z w ls f h = omega (arith, length-append ls (z ∷ w ∷ []))

pub parse_function-stream_at :
    {ks : List Line} {g : Function}
    → IsFunction ks g
    → (d rest : List Line) (f : ℕ) → length ks < f
    → parse_function f (stream_at d (ks ++ rest)) ≡ ok (g, stream_at (d ++ ks) rest)
unfolding parse_function token_text text_eq second plain
parse_function-stream_at (function w ws us vs xs k ls b p h e) d rest f lt =
    let inside =
      IsBody-ReadsBody h
        (d ++ (token_text func_begin ∷ w ∷ ws) ∷ (token_text block_begin ∷ us) ∷ [])
        ((token_text func_end ∷ xs) ∷ rest) vs f
        (function_fuel (token_text func_begin ∷ w ∷ ws) (token_text block_begin ∷ us)
          (token_text block_end ∷ vs) (token_text func_end ∷ xs) ls f (rw e at lt)) in
    simp (e, append_assoc, steps, p, inside)

pub end-stream_at_pos : (d ls : List Line) → 0 < length ls → Stream.end (stream_at d ls) ≡ false
end-stream_at_pos d [] h = absurd (omega arith)
end-stream_at_pos d (l ∷ ls) h = end-stream_at d l ls

parse_funcs-stream_at :
    {ls : List Line} {p : Program}
    → IsProgram ls p
    → (d : List Line) (n f : ℕ) → length ls < n
    → length ls < f
    → parse_funcs n f (stream_at d ls) ≡ ok (p, stream_at (d ++ ls) [])
unfolding parse_funcs
parse_funcs-stream_at nil d zero f h k = absurd (omega arith)
parse_funcs-stream_at nil d (suc n) f h k = simp (end-stream_at_nil, append-nil)
parse_funcs-stream_at (cons ks ls g p i is e) d zero f h k = absurd (omega arith)
parse_funcs-stream_at (cons ks ls g p i is e) d (suc n) f h k =
    let pos_i = IsFunction-length_pos i in
    let (front, back) = split_fuel ks ls n pos_i (rw e at h) in
    let (front_f, back_f) = parts_fuel ks ls f (rw e at k) in
    let some_left = end-stream_at_pos d (ks ++ ls) (nonempty_append ks ls pos_i) in
    simp (
      e,
      some_left,
      parse_function-stream_at i d ls f front_f,
      parse_funcs-stream_at is (d ++ ks) n f back back_f,
      append_assoc,
    )

-- Whatever the grammar allows is parsed to its tree, and nothing of the file is left.
pub parse_program_complete :
    (ls : List Line) (p : Program)
    → IsProgram ls p
    → parse_program (stream_at [] ls) ≡ ok (p, stream_at ls [])
unfolding parse_program stream_at
parse_program_complete ls p h =
    parse_funcs-stream_at h [] (suc (length ls)) (suc (length ls)) (omega arith) (omega arith)
