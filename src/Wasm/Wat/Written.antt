-- ===== src/Wasm/Wat/Written.antt =====
-- What `wat_to_inst` writes for a structured body stands for its tree.
use anonymous_repo.Prelude.{ℕ, ◌+◌, refl, List, [], ◌∷◌, ◌++◌, pos}
use anonymous_repo.Text.Str.{Text, codes, starts_with}
use anonymous_repo.Text.Number.{show_int}
use anonymous_repo.Text.Decimal.{parse_int-show_int}
use anonymous_repo.Wasm.Token.{token_text, loop_begin, block_begin, block_end}
use anonymous_repo.Wasm.Stream.{Line}
use anonymous_repo.Wasm.Grammar.{IsOp, IsBody}
use anonymous_repo.Wasm.Wat.Defs.{Names, translate_line}
use anonymous_repo.Wasm.Wat.Shape.{
  WatOp, WatBody, br, br_if, tee, set, br_table, return, call_indirect, call, block, loop, end,
  cons, op_lines, body_lines, next_op, next_body, op_of, body_of, OpCalls, BodyCalls,
}
use anonymous_repo.Wasm.Wat.Emits.{Emits, Emits-append, Emits-nil}
use anonymous_repo.Wasm.Wat.OpLines.{
  target, IsKnown, word-Emits, number-Emits, inside, Writes, br-Writes, br_if-Writes, tee-Writes,
  set-Writes, br_table-Writes, return-Writes, call_indirect-Writes, call-Writes,
}

abbrev WritesBody : Names → ℕ → ℕ → WatBody → Type 0
WritesBody m i k b =
    (ls : List Line) × Emits m (inside i k) (body_lines b) (inside i (next_body k b)) ls
    × IsBody ls (body_of (target m) k b)

-- A first line, a body and the line of an `end`.
bracket-Emits :
    (m : Names) (i k k' : ℕ) (l u : Text) (b : WatBody) (x : Line) (ls : List Line)
    → Emits m (inside i k) (l ∷ []) (inside i k') (x ∷ [])
    → Emits m (inside i k') (body_lines b) (inside i (next_body k' b)) ls
    → Emits m
        (inside i k)
        (l ∷ (body_lines b ++ (codes "end" ++ u) ∷ []))
        (inside i (next_body k' b))
        (x ∷ (ls ++ (token_text block_end ∷ []) ∷ []))
unfolding translate_line starts_with token_text
bracket-Emits m i k k' l u b x ls first inner =
    let s = inside i (next_body k' b) in
    let last = word-Emits m s s (codes "end" ++ u) block_end refl in
    Emits-append m (inside i k) (inside i k') s (l ∷ []) (body_lines b ++ (codes "end" ++ u) ∷ [])
      (x ∷ []) (ls ++ (token_text block_end ∷ []) ∷ []) first
      (Emits-append m (inside i k') s s (body_lines b) ((codes "end" ++ u) ∷ []) ls
        ((token_text block_end ∷ []) ∷ []) inner last)

block-Writes :
    (m : Names) (i k : ℕ) (t u : Text) (b : WatBody)
    → WritesBody m i k b
    → Writes m i k (block t b u)
unfolding translate_line starts_with token_text
block-Writes m i k t u b (ls, e, h) = (
  (token_text block_begin ∷ []) ∷ (ls ++ (token_text block_end ∷ []) ∷ []),
  bracket-Emits m i k k (codes "block" ++ t) u b (token_text block_begin ∷ []) ls
      (word-Emits m (inside i k) (inside i k) (codes "block" ++ t) block_begin refl) e,
  IsOp.block [] [] ls (body_of (target m) k b) h refl,
)

loop-Writes :
    (m : Names) (i k : ℕ) (t u : Text) (b : WatBody)
    → WritesBody m i (k + 1) b
    → Writes m i k (loop t b u)
unfolding translate_line starts_with token_text
loop-Writes m i k t u b (ls, e, h) = (
  (token_text loop_begin ∷ show_int (pos k) ∷ []) ∷ (ls ++ (token_text block_end ∷ []) ∷ []),
  bracket-Emits m i k (k + 1) (codes "loop" ++ t) u b
      (token_text loop_begin ∷ show_int (pos k) ∷ []) ls
      (number-Emits m (inside i k) (inside i (k + 1)) (codes "loop" ++ t) loop_begin (pos k) refl)
      e,
  IsOp.loop (show_int (pos k)) [] [] (pos k) ls (body_of (target m) (k + 1) b)
      (parse_int-show_int (pos k)) h refl,
)

mutual
  op-Writes : (m : Names) (i k : ℕ) (o : WatOp) → OpCalls (IsKnown m) o → Writes m i k o
  op-Writes m i k (br d t) h = br-Writes m i k d t
  op-Writes m i k (br_if d t) h = br_if-Writes m i k d t
  op-Writes m i k (tee d t) h = tee-Writes m i k d t
  op-Writes m i k (set d t) h = set-Writes m i k d t
  op-Writes m i k (br_table t) h = br_table-Writes m i k t
  op-Writes m i k (return t) h = return-Writes m i k t
  op-Writes m i k (call_indirect t) h = call_indirect-Writes m i k t
  op-Writes m i k (call name t) h = call-Writes m i k name t h
  op-Writes m i k (block t b u) h = block-Writes m i k t u b (body-WritesBody m i k b h)
  op-Writes m i k (loop t b u) h = loop-Writes m i k t u b (body-WritesBody m i (k + 1) b h)

  body-WritesBody :
      (m : Names) (i k : ℕ) (b : WatBody) → BodyCalls (IsKnown m) b → WritesBody m i k b
  body-WritesBody m i k end h = ([], Emits-nil m (inside i k), IsBody.end)
  body-WritesBody m i k (cons o b) (h, h') =
      let (ks, e, p) = op-Writes m i k o h in
      let (ls, f, q) = body-WritesBody m i (next_op k o) b h' in
      (
        ks ++ ls,
        Emits-append m (inside i k) (inside i (next_op k o)) (inside i (next_body (next_op k o) b))
            (op_lines o) (body_lines b) ks ls e f,
        IsBody.cons ks ls (op_of (target m) k o) (body_of (target m) (next_op k o) b) p q refl,
      )

-- The lines of a structured body are translated, and what is written is read back as lines that the
-- grammar relates to its tree.
pub body-Writes :
    (m : Names) (i k : ℕ) (b : WatBody)
    → BodyCalls (IsKnown m) b
    → (ls : List Line) × Emits m (inside i k) (body_lines b) (inside i (next_body k b)) ls
      × IsBody ls (body_of (target m) k b)
body-Writes m i k b h = body-WritesBody m i k b h
