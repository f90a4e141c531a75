-- ===== src/Wasm/Sound/Program.antt =====
-- Functions and programs: the parser accepts exactly what the grammar allows.
use mathlib.Core.Path.{subst}
use anonymous_repo.Prelude
use anonymous_repo.Prelude.{
  ap, ℕ, zero, suc, ◌+◌, ◌<◌, ◌≤◌, ◌≡◌, ◌≢◌, ◌↔◌, refl, sym, ◌∙◌, Bool, true, false, List, [], ◌∷◌,
  ◌++◌, append-nil, append_assoc, arith, length, length-append, ℤ, Result, ok, err, out_of_fuel,
  Bool-cases, inl, inr,
}
use anonymous_repo.Wasm.Token.{token_text, func_begin, func_end}
use anonymous_repo.Wasm.Syntax.{Function, Program, fresh}
use anonymous_repo.Wasm.Stream.{Line, InstStream, stream_at, end-stream_at, end-stream_at_nil}
use anonymous_repo.Wasm.Grammar.{IsFunction, IsProgram}
use anonymous_repo.Wasm.Complete.{IsFunction-length_pos, parse_program_complete}
use anonymous_repo.Wasm.Parser.{
  ◌>>◌, pure, next, assert_expect, parse_block, parse_insts, parse_function, parse_funcs,
  parse_program,
}
use anonymous_repo.Wasm.Sound.Reads.{
  Ensures, holds, raised, Reads, ReadsOnly, Reads-pure, bind-ReadsOnly, assert-ReadsOnly,
  next-Reads, next_int-Reads,
}
use anonymous_repo.Wasm.Sound.Ops.{BlockRead, parse_block-ReadsBlock, parse_insts-ReadsOnly}

close_function :
    (n : ℕ) (R : List Line → Function → Type 0) (g : Function)
    → ((xs : Line) → R ((token_text func_end ∷ xs) ∷ []) g)
    → ReadsOnly n R (do assert_expect func_end; next; pure g)
close_function n R g h =
    assert-ReadsOnly n n (omega arith) R func_end (do next; pure g)
      λ xs d rest lt.
        next-Reads n R d rest (token_text func_end ∷ xs) (λ _. pure g) lt
          λ d' ls lt'. Reads-pure (λ us b. R ((token_text func_end ∷ xs) ∷ us) b) d' ls g (h xs)

parse_function-ReadsOnly : (f : ℕ) → ReadsOnly (suc f) IsFunction (parse_function f)
unfolding parse_function
parse_function-ReadsOnly f =
    assert-ReadsOnly (suc f) f (omega arith) IsFunction func_begin _ λ ws d rest lt.
      next_int-Reads f IsFunction d rest (token_text func_begin) ws _ lt λ v vs z e.
        bind-ReadsOnly f f BlockRead _ (parse_block (parse_insts f)) _
          (λ d' ls' lt'.
            parse_block-ReadsBlock f (parse_insts f) (parse_insts-ReadsOnly f) d' ls' (omega arith))
          λ i ks (us, ws', ls, b, eq, body, p). (
            omega arith,
            close_function f _ (record { info = fresh; func_idx = z; block = i })
                λ xs.
                  subst
                    (λ j.
                      IsFunction
                        ((token_text func_begin ∷ v ∷ vs) ∷ (ks ++ (token_text func_end ∷ xs) ∷ []))
                        (record { info = fresh; func_idx = z; block = j }))
                    (sym eq)
                    (IsFunction.function v vs us ws' xs z ls b e body (simp (p, append_assoc))),
          )

-- The loop over the functions leaves nothing behind.
abbrev ReadsWhole : List Line → List Line → Program × InstStream → Type 0
ReadsWhole d ls (p, s) = (s ≡ stream_at (d ++ ls) []) × IsProgram ls p

-- A function, and then the rest of the program.
then_funcs :
    (f : ℕ) (d ls ks rest : List Line) (g : Function) {x : Result (Program × InstStream)}
    → ls ≡ ks ++ rest
    → IsFunction ks g
    → Ensures (ReadsWhole (d ++ ks) rest) x
    → Ensures (ReadsWhole d ls) (Prelude.◌>>=◌ x λ (p, s). ok (g ∷ p, s))
then_funcs f d ls ks rest g e h (holds {v = (p, s)} (q, is_program)) = holds (
  rw e (q ∙ ap (λ t. stream_at t []) (append_assoc d ks rest)),
  IsProgram.cons ks rest g p h is_program e,
)
then_funcs f d ls ks rest g e h (raised n) = raised n

parse_funcs-ReadsWhole :
    (n f : ℕ)
    → n ≤ suc f
    → (d ls : List Line) → length ls < n
    → Ensures (ReadsWhole d ls) (parse_funcs n f (stream_at d ls))
unfolding parse_funcs
parse_funcs-ReadsWhole zero f le d ls h = absurd (omega arith)
parse_funcs-ReadsWhole (suc n) f le d [] h =
    rw (end-stream_at_nil d) (holds (rw append-nil, IsProgram.nil))
parse_funcs-ReadsWhole (suc n) f le d (l ∷ ls) h = rw (end-stream_at d l ls) (
    go (parse_funcs-ReadsWhole n f (omega arith))
      (parse_function-ReadsOnly f d (l ∷ ls) (omega arith)))
  where
    left : (ks rest : List Line) → l ∷ ls ≡ ks ++ rest → 0 < length ks → length rest < n
    left ks rest e pos = omega (arith, ap length e, length-append ks rest)

    go :
        ((d' ls' : List Line)
          → length ls' < n
          → Ensures (ReadsWhole d' ls') (parse_funcs n f (stream_at d' ls')))
        → {x : Result (Function × InstStream)} → Ensures (Reads IsFunction d (l ∷ ls)) x
        → Ensures
            (ReadsWhole d (l ∷ ls))
            (Prelude.◌>>=◌ x λ (g, s). Prelude.◌>>=◌ (parse_funcs n f s) λ (p, s'). ok (g ∷ p, s'))
    go ih (holds {v = (g, s)} (ks, rest, e, q, is_function)) =
        let lt = left ks rest e (IsFunction-length_pos is_function) in
        rw q (then_funcs f d (l ∷ ls) ks rest g e is_function (ih (d ++ ks) rest lt))
    go ih (raised m) = raised m

-- Parsing a file from its first line raises an exception of the program, or it reads the file to
-- its end and gives a program whose lines they are.
pub parse_program_sound :
    (ls : List Line)
    → Ensures (λ (p, s). (s ≡ stream_at ls []) × IsProgram ls p) (parse_program (stream_at [] ls))
unfolding parse_program stream_at
parse_program_sound ls =
    parse_funcs-ReadsWhole (suc (length ls)) (suc (length ls)) (omega arith) [] ls (omega arith)

Ensures-ok {ℓ κ} :
    {A : Type ℓ} {P : A → Type κ} {r : Result A} {a : A} → Ensures P r → r ≡ ok a → P a
Ensures-ok {P} (holds h) e = subst P (cc) h
Ensures-ok (raised n) e = cc

Ensures-ne-out_of_fuel {ℓ κ} :
    {A : Type ℓ} {P : A → Type κ} {r : Result A} → Ensures P r → r ≢ err out_of_fuel
Ensures-ne-out_of_fuel (holds h) = cc
Ensures-ne-out_of_fuel (raised n) = λ e. n (cc)

-- The parser accepts a file, from its first line, exactly when the file is one of the program that
-- it returns, and then nothing of the file is left.
pub parse_program_iff :
    (ls : List Line) (p : Program)
    → (parse_program (stream_at [] ls) ≡ ok (p, stream_at ls [])) ↔ IsProgram ls p
parse_program_iff ls p =
    (λ e. (Ensures-ok (parse_program_sound ls) e).1, parse_program_complete ls p)

-- The fuel that the parser hands out is enough for every file.
pub parse_program-ne-out_of_fuel :
    (ls : List Line) → parse_program (stream_at [] ls) ≢ err out_of_fuel
parse_program-ne-out_of_fuel ls = Ensures-ne-out_of_fuel (parse_program_sound ls)
