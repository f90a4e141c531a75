-- ===== src/Wasm/ModifiedLocals/Pass.antt =====
-- `ModifiedLocalsPass`: the visitors, which carry `cur_func_idx` and the list `results`.
use anonymous_repo.Prelude.{
  Bool, true, false, none, some, List, [], ◌∷◌, ◌++◌, if◌then◌else◌, ℤ, Result, ok, ◌>>=◌, or_raise,
  key_error,
}
use anonymous_repo.Wasm.Syntax.{
  Data, Inst, Insts, branch, call, set, loop, end, cons, Function, Program, data_of,
}
use anonymous_repo.Wasm.IntSet.{union}

-- One tuple of `results`.
pub record Entry : Type 0 where
  pub func_idx : ℤ
  pub loop_idx : ℤ
  pub locals : List ℤ

unfoldable pub mark : List ℤ → Data → Data
mark locals d = record d { modified_locals = some locals }

unfoldable pub is_visited : Data → Bool
is_visited d = elim (d.modified_locals) [ none ↦ false | some l ↦ true ]

unfoldable pub get_mark : Data → Result (List ℤ)
get_mark d = or_raise key_error d.modified_locals

unfoldable mutual
  pub visit : ℤ → List Entry → Inst → Result (Inst × List Entry)
  visit cur results (branch d) = ok (if is_visited d then branch d else branch (mark [] d), results)
  visit cur results (call d z) = ok (if is_visited d then call d z else call (mark [] d) z, results)
  visit cur results (set d z) =
      ok (if is_visited d then set d z else set (mark (union [] (z ∷ [])) d) z, results)
  visit cur results (loop d k is) =
      let marked : Result (Inst × List Entry) = (do
        (is', locals, results') ← visit_insts cur results [] is
        let entry : Entry = record { func_idx = cur; loop_idx = k; locals = locals }
        ok (loop (mark locals d) k is', results' ++ entry ∷ [])) in
      if is_visited d then ok (loop d k is, results) else marked
  visit cur results (Inst.block d is) =
      let marked : Result (Inst × List Entry) = (do
        (is', locals, results') ← visit_insts cur results [] is
        ok (Inst.block (mark locals d) is', results')) in
      if is_visited d then ok (Inst.block d is, results) else marked

  -- The loop of `visit_block`, with the set that it has gathered.
  pub visit_insts : ℤ → List Entry → List ℤ → Insts → Result (Insts × List ℤ × List Entry)
  visit_insts cur results modified end = ok (end, modified, results)
  visit_insts cur results modified (cons i is) = do
    (i', results₁) ← visit cur results i
    locals ← get_mark (data_of i')
    (is', modified', results₂) ← visit_insts cur results₁ (union modified locals) is
    ok (cons i' is', modified', results₂)

unfoldable pub visit_func : List Entry → Function → Result (Function × List Entry)
visit_func results func = if is_visited func.info then ok (func, results) else (do
  (body, results') ← visit func.func_idx results func.block
  locals ← get_mark (data_of body)
  ok (record func { info = mark locals func.info; block = body }, results'))

unfoldable pub visit_funcs : List Entry → Program → Result (Program × List Entry)
visit_funcs results [] = ok ([], results)
visit_funcs results (func ∷ funcs) = do
  (func', results₁) ← visit_func results func
  (funcs', results₂) ← visit_funcs results₁ funcs
  ok (func' ∷ funcs', results₂)

unfoldable pub modified_locals_pass : Program → Result (Program × List Entry)
modified_locals_pass program = visit_funcs [] program
