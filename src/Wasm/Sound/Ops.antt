-- ===== src/Wasm/Sound/Ops.antt =====
-- The classes of instructions, and the loop over the instructions of a block.
use anonymous_repo.Prelude.{
  ℕ, zero, suc, ◌<◌, ◌≤◌, ◌≡◌, refl, true, some, List, [], ◌∷◌, ◌++◌, append-nil, arith, length, ℤ,
  negsuc, Bool-cases, inl, inr, Option-cases,
}
use anonymous_repo.Text.Number.{parse_int}
use anonymous_repo.Text.Str.{Text, text_eq}
use anonymous_repo.Wasm.Token.{
  Token, token_text, Class, wasm_branch, wasm_call, wasm_set, wasm_block, wasm_loop, class_of,
  loop_begin, block_begin, block_end, op_br, op_br_if, op_br_table, op_return, op_call,
  op_call_indirect, op_return_call, op_return_call_indirect, op_set, op_tee,
}
use anonymous_repo.Wasm.Syntax.{Op, Body, Inst, Insts, plain, plain_insts, fresh}
use anonymous_repo.Wasm.Stream.{
  Line, stream_at, peek-stream_at, end-stream_at, end-stream_at_nil, first,
}
use anonymous_repo.Wasm.Grammar.{IsOp, IsBody, is_branch_token}
use anonymous_repo.Wasm.Complete.{IsOp-length_pos}
use anonymous_repo.Wasm.Parser.{
  Parser, ◌>>=◌, ◌>>◌, pure, fail, next, next_int, assert_expect, parse_branch, parse_call,
  parse_set, parse_loop, parse_block, construct, parse_insts, peek_word,
}
use anonymous_repo.Wasm.Sound.Reads.{
  Ensures, raised, Reads, ReadsOnly, Reads-pure, bind-ReadsOnly, ReadsOnly-map, expect-ReadsOnly,
  assert-ReadsOnly, next-Reads, next_int-Reads,
}

abbrev pub OpRead : List Line → Inst → Type 0
OpRead ks i = (o : Op) × (i ≡ plain o) × IsOp ks o

abbrev pub BodyRead : List Line → Insts → Type 0
BodyRead ks is = (b : Body) × (is ≡ plain_insts b) × IsBody ks b

abbrev pub BlockRead : List Line → Inst → Type 0
BlockRead ks i =
    (ws : Line) × (vs : Line) × (ls : List Line) × (b : Body) × (i ≡ plain (Op.block b))
    × IsBody ls b
    × (ks ≡ (token_text block_begin ∷ ws) ∷ (ls ++ (token_text block_end ∷ vs) ∷ []))

-- The branch on a token of which the rest is not read.
read_branch :
    (m : ℕ) (t : Token) (o : Op)
    → ((ws : Line) → IsOp ((token_text t ∷ ws) ∷ []) o)
    → (ws : Line) (d rest : List Line) → length rest < m
    → Ensures
        (Reads OpRead d ((token_text t ∷ ws) ∷ rest))
        ((do next; pure (plain o)) (stream_at d ((token_text t ∷ ws) ∷ rest)))
read_branch m t o h ws d rest lt =
    next-Reads m OpRead d rest (token_text t ∷ ws) (λ _. pure (plain o)) lt
      λ d' ls lt'.
        Reads-pure (λ us b. OpRead ((token_text t ∷ ws) ∷ us) b) d' ls (plain o) (o, refl, h ws)

fail-ReadsOnly : (n : ℕ) → ReadsOnly n OpRead fail
fail-ReadsOnly n d ls lt = raised cc

read_branch_token :
    (m : ℕ) (t : Token)
    → is_branch_token t ≡ true
    → (ws : Line) (d rest : List Line) → length rest < m
    → Ensures
        (Reads OpRead d ((token_text t ∷ ws) ∷ rest))
        ((do next; pure (plain Op.branch)) (stream_at d ((token_text t ∷ ws) ∷ rest)))
read_branch_token m t h = read_branch m t Op.branch (λ ws. IsOp.branch t ws h)

parse_branch-ReadsOnly : (n : ℕ) → ReadsOnly (suc n) OpRead parse_branch
unfolding parse_branch plain
parse_branch-ReadsOnly n =
    let le : suc n ≤ suc n = omega arith in
    expect-ReadsOnly (suc n) n le OpRead op_br _ _ (read_branch_token n op_br refl) (
      expect-ReadsOnly (suc n) n le OpRead op_br_if _ _ (read_branch_token n op_br_if refl) (
        expect-ReadsOnly (suc n) n le OpRead op_br_table _ _ (read_branch_token n op_br_table refl)
          (expect-ReadsOnly (suc n) n le OpRead op_return _ _ (read_branch_token n op_return refl)
            (fail-ReadsOnly (suc n)))))

-- The branch on a token with an integer behind it.
read_int :
    (m : ℕ) (t : Token) (f : ℤ → Op)
    → ((v : Text) (vs : Line) (z : ℤ)
        → parse_int v ≡ some z
        → IsOp ((token_text t ∷ v ∷ vs) ∷ []) (f z))
    → (ws : Line) (d rest : List Line) → length rest < m
    → Ensures
        (Reads OpRead d ((token_text t ∷ ws) ∷ rest))
        ((do z ← next_int; pure (plain (f z))) (stream_at d ((token_text t ∷ ws) ∷ rest)))
read_int m t f h ws d rest lt =
    next_int-Reads m OpRead d rest (token_text t) ws (λ z. pure (plain (f z))) lt
      λ v vs z e d' ls lt'.
        Reads-pure (λ us b. OpRead ((token_text t ∷ v ∷ vs) ∷ us) b) d' ls (plain (f z))
          (f z, refl, h v vs z e)

parse_set-ReadsOnly : (n : ℕ) → ReadsOnly (suc n) OpRead parse_set
unfolding parse_set plain
parse_set-ReadsOnly n =
    let le : suc n ≤ suc n = omega arith in
    expect-ReadsOnly (suc n) n le OpRead op_set _ _
      (read_int n op_set Op.set (λ v vs z e. IsOp.set op_set v vs z refl e))
      (expect-ReadsOnly (suc n) n le OpRead op_tee _ _
        (read_int n op_tee Op.set (λ v vs z e. IsOp.set op_tee v vs z refl e))
        (fail-ReadsOnly (suc n)))

parse_call-ReadsOnly : (n : ℕ) → ReadsOnly (suc n) OpRead parse_call
unfolding parse_call plain
parse_call-ReadsOnly n =
    let le : suc n ≤ suc n = omega arith in
    expect-ReadsOnly (suc n) n le OpRead op_call _ _ (read_int n op_call Op.call IsOp.call) (
      expect-ReadsOnly (suc n) n le OpRead op_call_indirect _ _
        (read_branch n op_call_indirect (Op.call (negsuc 0)) IsOp.call_indirect)
        (expect-ReadsOnly (suc n) n le OpRead op_return_call _ _ (λ ws d rest lt. raised cc)
          (expect-ReadsOnly (suc n) n le OpRead op_return_call_indirect _ _
            (λ ws d rest lt. raised cc) (fail-ReadsOnly (suc n)))))

-- The closing line of a block or a loop.
close_body :
    (n : ℕ) (R : List Line → Inst → Type 0) (i : Inst)
    → ((vs : Line) → R ((token_text block_end ∷ vs) ∷ []) i)
    → ReadsOnly n R (do assert_expect block_end; next; pure i)
close_body n R i h =
    assert-ReadsOnly n n (omega arith) R block_end (do next; pure i)
      λ vs d rest lt.
        next-Reads n R d rest (token_text block_end ∷ vs) (λ _. pure i) lt
          λ d' ls lt'. Reads-pure (λ us b. R ((token_text block_end ∷ vs) ∷ us) b) d' ls i (h vs)

module _ (n : ℕ) (insts : Parser Insts) (ih : ReadsOnly n BodyRead insts) where
  parse_loop-ReadsOnly : ReadsOnly (suc n) OpRead (parse_loop insts)
  unfolding parse_loop plain
  parse_loop-ReadsOnly =
      assert-ReadsOnly (suc n) n (omega arith) OpRead loop_begin _ λ ws d rest lt.
        next_int-Reads n OpRead d rest (token_text loop_begin) ws _ lt λ v vs z e.
          bind-ReadsOnly n n BodyRead _ insts _ ih λ is ks (b, eq, body). (
            omega arith,
            close_body n _ (Inst.loop fresh z is)
                λ us. (Op.loop z b, rw eq, IsOp.loop v vs us z ks b e body refl),
          )

  pub parse_block-ReadsBlock : ReadsOnly (suc n) BlockRead (parse_block insts)
  unfolding parse_block plain
  parse_block-ReadsBlock =
      assert-ReadsOnly (suc n) n (omega arith) BlockRead block_begin _ λ ws d rest lt.
        next-Reads n BlockRead d rest (token_text block_begin ∷ ws) _ lt (
          bind-ReadsOnly n n BodyRead _ insts _ ih λ is ks (b, eq, body). (
            omega arith,
            close_body n _ (Inst.block fresh is) λ us. (ws, us, ks, b, rw eq, body, refl),
          ))

  parse_block-ReadsOnly : ReadsOnly (suc n) OpRead (parse_block insts)
  parse_block-ReadsOnly =
      ReadsOnly-map (suc n) BlockRead OpRead (parse_block insts)
        (λ ks i (ws, us, ls, b, eq, body, e). (Op.block b, eq, IsOp.block ws us ls b body e))
        parse_block-ReadsBlock

  construct-ReadsOnly : (cls : Class) → ReadsOnly (suc n) OpRead (construct insts cls)
  unfolding construct
  construct-ReadsOnly wasm_branch = parse_branch-ReadsOnly n
  construct-ReadsOnly wasm_call = parse_call-ReadsOnly n
  construct-ReadsOnly wasm_set = parse_set-ReadsOnly n
  construct-ReadsOnly wasm_loop = parse_loop-ReadsOnly
  construct-ReadsOnly wasm_block = parse_block-ReadsOnly

-- An instruction, and then the rest of the body.
then_insts :
    (f : ℕ) (cls : Class)
    → ReadsOnly f BodyRead (parse_insts f)
    → ReadsOnly
        (suc f)
        BodyRead
        (do inst ← construct (parse_insts f) cls; rest ← parse_insts f; pure (Insts.cons inst rest))
unfolding plain
then_insts f cls ih =
    bind-ReadsOnly (suc f) f OpRead BodyRead (construct (parse_insts f) cls) _
      (construct-ReadsOnly f (parse_insts f) ih cls)
      λ i ks (o, p, is_op). (
        omega (arith, IsOp-length_pos is_op),
        bind-ReadsOnly f f BodyRead _ (parse_insts f) _ ih λ is ls (b, q, is_body). (
          omega arith,
          λ d us lt.
              Reads-pure _ d us (Insts.cons i is)
                (Body.cons o b, cc, IsBody.cons ks ls o b is_op is_body (rw append-nil)),
        ),
      )

pub parse_insts-ReadsOnly : (f : ℕ) → ReadsOnly f BodyRead (parse_insts f)
unfolding parse_insts peek_word first plain_insts
parse_insts-ReadsOnly zero d ls h = absurd (omega arith)
parse_insts-ReadsOnly (suc f) d [] h =
    rw (end-stream_at_nil d) (Reads-pure BodyRead d [] Insts.end (Body.end, refl, IsBody.end))
parse_insts-ReadsOnly (suc f) d ([] ∷ rest) h =
    rw (end-stream_at d [] rest, peek-stream_at d [] rest) (raised cc)
parse_insts-ReadsOnly (suc f) d ((w ∷ ws) ∷ rest) h =
    let l = w ∷ ws in
    let ih = parse_insts-ReadsOnly f in
    elim (Bool-cases (text_eq w (token_text block_end))) [
      | inl e ↦
          rw (end-stream_at d l rest, peek-stream_at d l rest, e)
            (Reads-pure BodyRead d (l ∷ rest) Insts.end (Body.end, refl, IsBody.end))
      | inr e ↦ elim (Option-cases (class_of w)) [
        | inl none_found ↦
            rw (end-stream_at d l rest, peek-stream_at d l rest, e, none_found) (raised cc)
        | inr (cls, found) ↦
            rw (end-stream_at d l rest, peek-stream_at d l rest, e, found)
              (then_insts f cls ih d (l ∷ rest) h)
      ]
    ]
