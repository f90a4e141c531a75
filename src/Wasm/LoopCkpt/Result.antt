-- ===== src/Wasm/LoopCkpt/Result.antt =====
-- The result of the whole pass against the loops that are reached.
use anonymous_repo.Prelude.{◌≡◌, List, [], ◌∷◌, ◌++◌, map, append_assoc, append-nil, ok, ℤ}
use anonymous_repo.Wasm.Syntax.{AllFuncs, Program, code}
use anonymous_repo.Wasm.LoopCkpt.Pass.{Skip, visit_funcs, loop_ckpt_pass}
use anonymous_repo.Wasm.LoopCkpt.Spec.{Unseen, reached, reached_program, skips}
use anonymous_repo.Wasm.LoopCkpt.Marks.{mark_func, visit_func-mark_func, skips-append}

visit_funcs-mark_func :
    (s : List ℤ) (r : List Skip) (p : Program)
    → AllFuncs Unseen p
    → visit_funcs s r p ≡ ok (map (mark_func s) p, r ++ skips s (reached_program s p))
unfolding visit_funcs reached_program
visit_funcs-mark_func s r [] h = unfold skips in simp append-nil
visit_funcs-mark_func s r (g ∷ p) h = simp (
  visit_func-mark_func s r g h.0 h.1,
  visit_funcs-mark_func s (r ++ skips s (reached s g.func_idx (code g.block))) p h.2,
  skips-append,
  append_assoc,
)

-- On a program that the pass has not seen, it raises nothing; it reports, inner before outer, the
-- loops that are reached and whose body holds a loop or a call of a function outside the set,
-- blocks inside it included.
pub loop_ckpt_pass_exact :
    (p : Program) (s : List ℤ)
    → AllFuncs Unseen p
    → loop_ckpt_pass p s ≡ ok (map (mark_func s) p, skips s (reached_program s p))
unfolding loop_ckpt_pass
loop_ckpt_pass_exact p s h = visit_funcs-mark_func s [] p h
