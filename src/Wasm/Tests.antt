-- ===== src/Wasm/Tests.antt =====
-- Runs of the parser and of the passes, and the theorems at a concrete program.
use anonymous_repo.Prelude.{
  out_of_fuel, err, ◌↔◌, ◌≢◌, All, ◌≡◌, refl, none, some, [], ◌∷◌, map, ℤ, pos, ok, List,
}
use anonymous_repo.Wasm.Sound.Program.{parse_program_iff, parse_program-ne-out_of_fuel}
use anonymous_repo.Wasm.Sound.Balance.{IsBalanced, parse_program-IsBalanced}
use anonymous_repo.Text.Str.{codes}
use anonymous_repo.Text.Number.{parse_int}
use anonymous_repo.Wasm.Token.{
  token_text, func_begin, func_end, loop_begin, block_begin, block_end, op_set,
}
use anonymous_repo.Wasm.Syntax.{
  Data, plain-AllData, Body, branch, call, set, loop, block, end, cons, Program, plain, fresh,
  AllFuncs,
}
use anonymous_repo.Wasm.Stream.{Line, stream_at}
use anonymous_repo.Wasm.Grammar.{IsOp, IsBody, IsFunction, IsProgram}
use anonymous_repo.Wasm.Parser.{parse_program}
use anonymous_repo.Wasm.Complete.{parse_program_complete}
use anonymous_repo.Wasm.IntSet.{contains, IsAscending}
use anonymous_repo.Wasm.SimpleFunc.Pass.{simple_func_pass}
use anonymous_repo.Wasm.SimpleFunc.Spec.{has_simple}
use anonymous_repo.Wasm.SimpleFunc.Marks.{mark_func as mark_simple}
use anonymous_repo.Wasm.SimpleFunc.Result.{simple_func_pass_exact}
use anonymous_repo.Wasm.ModifiedLocals.Pass.{Entry, modified_locals_pass}
use anonymous_repo.Wasm.ModifiedLocals.Spec.{program_loops, ReportsAll}
use anonymous_repo.Wasm.ModifiedLocals.Marks.{mark_func as mark_locals}
use anonymous_repo.Wasm.ModifiedLocals.Result.{modified_locals_pass_exact}
use anonymous_repo.Wasm.LoopCkpt.Pass.{Skip, loop_ckpt_pass}
use anonymous_repo.Wasm.LoopCkpt.Spec.{skips, reached_program}
use anonymous_repo.Wasm.LoopCkpt.Marks.{mark_func as mark_ckpt}
use anonymous_repo.Wasm.LoopCkpt.Safety.{IsJustified, loop_ckpt_pass-IsJustified}
use anonymous_repo.Wasm.LoopCkpt.Result.{loop_ckpt_pass_exact}

-- local.set 3; br_if 0
abbrev leaf : Body
leaf = cons (set (pos 3)) (cons branch end)

-- loop 0 { loop 1 { local.set 3; br_if 0 } call 0 }
abbrev nest : Body
nest = cons (loop (pos 0) (cons (loop (pos 1) leaf) (cons (call (pos 0)) end))) end

abbrev two_funcs : Program
two_funcs =
    (record { info = fresh; func_idx = pos 0; block = plain (block leaf) })
    ∷ (record { info = fresh; func_idx = pos 1; block = plain (block nest) })
    ∷ []

two_funcs-AllFuncs : (P : Data → Type 0) → P fresh → AllFuncs P two_funcs
two_funcs-AllFuncs P h =
    (h, plain-AllData P h (block leaf), (h, plain-AllData P h (block nest), tt))

simple_func_pass_exact_example :
    (found : List ℤ) × (simple_func_pass 1 two_funcs ≡ ok (map mark_simple two_funcs, found))
    × IsAscending found
    × ((z : ℤ) → contains z found ≡ has_simple z two_funcs)
simple_func_pass_exact_example =
    simple_func_pass_exact 0 two_funcs (two_funcs-AllFuncs (λ d. d.simple_func ≡ none) refl)

modified_locals_pass_exact_example :
    (results : List Entry) × (modified_locals_pass two_funcs
      ≡ ok (map mark_locals two_funcs, results))
    × ReportsAll results (program_loops two_funcs)
modified_locals_pass_exact_example =
    modified_locals_pass_exact two_funcs (two_funcs-AllFuncs (λ d. d.modified_locals ≡ none) refl)

loop_ckpt_pass_exact_example :
    loop_ckpt_pass two_funcs (pos 0 ∷ [])
    ≡ ok (
      map (mark_ckpt (pos 0 ∷ [])) two_funcs,
      skips (pos 0 ∷ []) (reached_program (pos 0 ∷ []) two_funcs),
    )
loop_ckpt_pass_exact_example =
    loop_ckpt_pass_exact two_funcs (pos 0 ∷ []) (two_funcs-AllFuncs (λ d. d.loop_ckpt ≡ none) refl)

-- begin_func 0 / begin_block / begin_loop 0 / op_set 3 / end_block / end_block / end_func
abbrev file : List Line
file =
    (token_text func_begin ∷ codes "0" ∷ [])
    ∷ (token_text block_begin ∷ [])
    ∷ (token_text loop_begin ∷ codes "0" ∷ [])
    ∷ (token_text op_set ∷ codes "3" ∷ [])
    ∷ (token_text block_end ∷ [])
    ∷ (token_text block_end ∷ [])
    ∷ (token_text func_end ∷ [])
    ∷ []

abbrev file_program : Program
file_program =
    (record {
      info = fresh;
      func_idx = pos 0;
      block = plain (block (cons (loop (pos 0) (cons (set (pos 3)) end)) end));
    })
    ∷ []

three_is_int : parse_int (codes "3") ≡ some (pos 3)
unfolding parse_int
three_is_int = refl

zero_is_int : parse_int (codes "0") ≡ some (pos 0)
unfolding parse_int
zero_is_int = refl

file-IsProgram : IsProgram file file_program
file-IsProgram =
    let inner = IsOp.set op_set (codes "3") [] (pos 3) refl three_is_int in
    let in_loop : IsBody ((token_text op_set ∷ codes "3" ∷ []) ∷ []) (cons (set (pos 3)) end) =
      IsBody.cons _ _ _ _ inner IsBody.end refl in
    let one = IsOp.loop (codes "0") [] [] (pos 0) _ _ zero_is_int in_loop refl in
    let all = IsBody.cons _ _ _ _ one IsBody.end refl in
    IsProgram.cons file [] _ []
      (IsFunction.function (codes "0") [] [] [] [] (pos 0) _ _ zero_is_int all refl) IsProgram.nil
      refl

parse_program_complete_example :
    parse_program (stream_at [] file) ≡ ok (file_program, stream_at file [])
parse_program_complete_example = parse_program_complete file file_program file-IsProgram

loop_ckpt_pass-IsJustified_example :
    (results : List Skip) × (loop_ckpt_pass two_funcs (pos 0 ∷ [])
      ≡ ok (map (mark_ckpt (pos 0 ∷ [])) two_funcs, results))
    × All (IsJustified (pos 0 ∷ []) (program_loops two_funcs)) results
loop_ckpt_pass-IsJustified_example =
    loop_ckpt_pass-IsJustified two_funcs (pos 0 ∷ [])
      (two_funcs-AllFuncs (λ d. d.loop_ckpt ≡ none) refl)

parse_program_iff_example :
    (parse_program (stream_at [] file) ≡ ok (file_program, stream_at file []))
    ↔ IsProgram file file_program
parse_program_iff_example = parse_program_iff file file_program

parse_program-ne-out_of_fuel_example : parse_program (stream_at [] file) ≢ err out_of_fuel
parse_program-ne-out_of_fuel_example = parse_program-ne-out_of_fuel file

parse_program-IsBalanced_example : IsBalanced file
parse_program-IsBalanced_example =
    parse_program-IsBalanced file file_program parse_program_complete_example
