-- ===== src/Wasm/SimpleFunc/Pass.antt =====
-- `SimpleFuncPass`: the visitors, `iteration`, and the loop that repeats it until the set of
-- simple functions grows no more.
use anonymous_repo.Prelude.{
  ℕ, zero, suc, ◌==◌, Bool, true, false, none, some, List, [], ◌∷◌, if◌then◌else◌, length, ℤ,
  Result, ok, err, ◌>>=◌, or_raise, key_error, out_of_fuel,
}
use anonymous_repo.Wasm.Syntax.{
  Data, Inst, Insts, branch, call, set, loop, end, cons, Function, Program, data_of,
}
use anonymous_repo.Wasm.IntSet.{contains, add, sort}

-- `base.data[pname] = b`
unfoldable pub mark : Bool → Data → Data
mark b d = record d { simple_func = some b }

-- `base.data.get(pname, None) is not None`
unfoldable pub is_visited : Data → Bool
is_visited d = elim (d.simple_func) [ none ↦ false | some b ↦ true ]

-- `base.data[pname]`
unfoldable pub get_mark : Data → Result Bool
get_mark d = or_raise key_error d.simple_func

-- The first assignment is overwritten by the second.
unfoldable pub visit_call : List ℤ → Data → ℤ → Data
unfolding mark contains
visit_call simple_func_set d callee_idx =
    let first = if contains callee_idx simple_func_set then mark true d else d in mark false first

-- `visit`, and the loop of `visit_block`: the marked instructions, and whether all are simple.
unfoldable mutual
  pub visit : List ℤ → Inst → Result Inst
  visit s (branch d) = ok (if is_visited d then branch d else branch (mark true d))
  visit s (call d z) = ok (if is_visited d then call d z else call (visit_call s d z) z)
  visit s (set d z) = ok (if is_visited d then set d z else set (mark true d) z)
  visit s (loop d k is) = ok (if is_visited d then loop d k is else loop (mark false d) k is)
  visit s (Inst.block d is) =
      let marked : Result Inst = (do
        (is', simple) ← visit_insts s is
        ok (Inst.block (mark simple d) is')) in
      if is_visited d then ok (Inst.block d is) else marked

  pub visit_insts : List ℤ → Insts → Result (Insts × Bool)
  visit_insts s end = ok (end, true)
  visit_insts s (cons i is) = do
    i' ← visit s i
    simple ← get_mark (data_of i')
    let rest : Result (Insts × Bool) = (do
      (is', all_simple) ← visit_insts s is
      ok (cons i' is', all_simple))
    if simple then rest else ok (cons i' is, false)

unfoldable pub visit_func : List ℤ → Function → Result Function
visit_func s func = if is_visited func.info then ok func else (do
  body ← visit s func.block
  simple ← get_mark (data_of body)
  ok (record func { info = mark simple func.info; block = body }))

unfoldable pub iteration : List ℤ → Program → Result (Program × List ℤ)
iteration s [] = ok ([], s)
iteration s (func ∷ funcs) = do
  func' ← visit_func s func
  simple ← get_mark func'.info
  (funcs', s') ← iteration (if simple then add func'.func_idx s else s) funcs
  ok (func' ∷ funcs', s')

-- `while True:`
unfoldable pub repeat : ℕ → List ℤ → Program → Result (Program × List ℤ)
repeat zero s program = err out_of_fuel
repeat (suc f) s program = do
  (program', s') ← iteration s program
  let again = repeat f s' program'
  if length s' == length s then ok (program', s') else again

-- The program with its marks, and the sorted list of the simple functions. The number bounds the
-- rounds of the loop.
unfoldable pub simple_func_pass : ℕ → Program → Result (Program × List ℤ)
simple_func_pass f program = do
  (program₁, s₁) ← iteration [] program
  (program₂, s₂) ← repeat f s₁ program₁
  ok (program₂, sort s₂)
