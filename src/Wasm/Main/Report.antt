-- ===== src/Wasm/Main/Report.antt =====
-- The three passes one after the other, and the whole run.
use mathlib.Core.Path.{subst}
use anonymous_repo.Prelude.{suc, ◌≡◌, List, map, length, ℤ, ok}
use anonymous_repo.Wasm.IntSet.{contains, IsAscending}
use anonymous_repo.Wasm.Syntax.{Program, AllFuncs}
use anonymous_repo.Wasm.SimpleFunc.Marks.{mark_func as mark_simple}
use anonymous_repo.Wasm.SimpleFunc.Spec.{has_simple}
use anonymous_repo.Wasm.SimpleFunc.Result.{simple_func_pass_exact}
use anonymous_repo.Wasm.ModifiedLocals.Marks.{mark_func as mark_locals}
use anonymous_repo.Wasm.ModifiedLocals.Pass.{Entry}
use anonymous_repo.Wasm.ModifiedLocals.Spec.{ReportsAll, program_loops}
use anonymous_repo.Wasm.ModifiedLocals.Result.{modified_locals_pass_exact}
use anonymous_repo.Wasm.LoopCkpt.Spec.{skips, reached_program}
use anonymous_repo.Wasm.LoopCkpt.Result.{loop_ckpt_pass_exact}
use anonymous_repo.Text.Str.{Text}
use anonymous_repo.Wasm.Main.Defs.{analyse}
use anonymous_repo.Wasm.Main.Frames.{
  IsFresh, fresh-UnseenSimple, mark_simple-UnseenLocals, marks-UnseenCkpt,
  program_loops-mark_simple, reached_program-marks,
}

-- What the three lists are, said of the program alone.
abbrev pub IsReport : Program → List ℤ → List Entry → Type 0
IsReport p simple_func modified_locals =
    IsAscending simple_func
    × ((z : ℤ) → contains z simple_func ≡ has_simple z p)
    × ReportsAll modified_locals (program_loops p)

-- A program as the parser leaves it goes through the three passes without an exception.
pub analyse-IsReport :
    (p : Program)
    → AllFuncs IsFresh p
    → (simple_func : List ℤ) × (modified_locals : List Entry) × (analyse p
        ≡ ok (simple_func, modified_locals, skips simple_func (reached_program simple_func p)))
      × IsReport p simple_func modified_locals
unfolding analyse
analyse-IsReport p h =
    let p₁ = map mark_simple p in
    let (s, e, a, c) = simple_func_pass_exact (suc (length p)) p (fresh-UnseenSimple p h) in
    let (l, e', r) = modified_locals_pass_exact p₁ (mark_simple-UnseenLocals p h) in
    let e'' = loop_ckpt_pass_exact (map mark_locals p₁) s (marks-UnseenCkpt p h) in
    (
      s,
      l,
      rw (e, e', e'', reached_program-marks s p),
      (a, c, subst (λ ls. ReportsAll l ls) (program_loops-mark_simple p) r),
    )
