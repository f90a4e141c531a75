-- ===== src/Wasm/LoopCkpt/Pass.antt =====
-- `LoopCkptPass`: the visitors, which read `simple_func_set` and carry `cur_func_idx` and `results`.
use anonymous_repo.Prelude.{
  Bool, true, false, ◌||◌, not, none, some, List, [], ◌∷◌, ◌++◌, if◌then◌else◌, ℤ, Result, ok,
  ◌>>=◌, or_raise, key_error,
}
use anonymous_repo.Wasm.Syntax.{
  Ckpt, Data, Inst, Insts, branch, call, set, loop, end, cons, Function, Program, data_of,
}
use anonymous_repo.Wasm.IntSet.{contains}

-- `{"noinf": noinf, "ckpt": ckpt}`
abbrev pub flags : Bool → Bool → Ckpt
flags noinf ckpt = record { noinf = noinf; ckpt = ckpt }

unfoldable pub mark : Ckpt → Data → Data
mark c d = record d { loop_ckpt = some c }

unfoldable pub is_visited : Data → Bool
is_visited d = elim (d.loop_ckpt) [ none ↦ false | some c ↦ true ]

unfoldable pub get_mark : Data → Result Ckpt
get_mark d = or_raise key_error d.loop_ckpt

unfoldable pub visit_call : List ℤ → ℤ → Ckpt
visit_call s callee_idx = if contains callee_idx s then flags true false else flags false true

-- One tuple of `results`: a function and a loop in it.
abbrev pub Skip : Type 0
Skip = ℤ × ℤ

unfoldable mutual
  pub visit : List ℤ → ℤ → List Skip → Inst → Result (Inst × List Skip)
  visit s cur results (branch d) =
      ok (if is_visited d then branch d else branch (mark (flags true false) d), results)
  visit s cur results (call d z) =
      ok (if is_visited d then call d z else call (mark (visit_call s z) d) z, results)
  visit s cur results (set d z) =
      ok (if is_visited d then set d z else set (mark (flags true false) d) z, results)
  visit s cur results (loop d k is) =
      let marked : Result (Inst × List Skip) = (do
        (is', c, results') ← visit_insts s cur results false is
        let ignore_emit_ckpt = c.ckpt
        let first = mark c d
        ok (
          loop (mark (flags false true) first) k is',
          if ignore_emit_ckpt then results' ++ (cur, k) ∷ [] else results',
        )) in
      if is_visited d then ok (loop d k is, results) else marked
  visit s cur results (Inst.block d is) =
      let marked : Result (Inst × List Skip) = (do
        (is', c, results') ← visit_insts s cur results false is
        ok (Inst.block (mark c d) is', results')) in
      if is_visited d then ok (Inst.block d is, results) else marked

  -- The loop of `visit_block`, with the `ckpt` that it has gathered; `noinf` is true until the
  -- `break`.
  pub visit_insts : List ℤ → ℤ → List Skip → Bool → Insts → Result (Insts × Ckpt × List Skip)
  visit_insts s cur results ckpt end = ok (end, flags true ckpt, results)
  visit_insts s cur results ckpt (cons i is) = do
    (i', results₁) ← visit s cur results i
    c ← get_mark (data_of i')
    let rest : Result (Insts × Ckpt × List Skip) = (do
      (is', c', results₂) ← visit_insts s cur results₁ (ckpt || c.ckpt) is
      ok (cons i' is', c', results₂))
    if not c.noinf then ok (cons i' is, flags false (ckpt || c.ckpt), results₁) else rest

-- The function's own `data` is not written here.
unfoldable pub visit_func : List ℤ → List Skip → Function → Result (Function × List Skip)
visit_func s results func = if is_visited func.info then ok (func, results) else (do
  (body, results') ← visit s func.func_idx results func.block
  ok (record func { block = body }, results'))

unfoldable pub visit_funcs : List ℤ → List Skip → Program → Result (Program × List Skip)
visit_funcs s results [] = ok ([], results)
visit_funcs s results (func ∷ funcs) = do
  (func', results₁) ← visit_func s results func
  (funcs', results₂) ← visit_funcs s results₁ funcs
  ok (func' ∷ funcs', results₂)

unfoldable pub loop_ckpt_pass : Program → List ℤ → Result (Program × List Skip)
loop_ckpt_pass program simple_func_set = visit_funcs simple_func_set [] program
