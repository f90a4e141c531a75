-- ===== src/Wasm/Main/Frames.antt =====
-- What a pass leaves for the next one: the tree, and the other keys of `data`.
use anonymous_repo.Prelude.{◌≡◌, refl, ap, Bool, List, [], ◌∷◌, map, ℤ}
use anonymous_repo.Wasm.Syntax.{
  Data, fresh, Inst, Insts, branch, call, set, loop, end, cons, Program, AllData, AllInsts,
  AllFuncs,
}
use anonymous_repo.Wasm.SimpleFunc.Marks.{
  mark_func as mark_simple, code-marks as code-marks_simple, marks-AllData as marks_simple-AllData,
}
use anonymous_repo.Wasm.SimpleFunc.Pass.{mark as put_simple}
use anonymous_repo.Wasm.SimpleFunc.Spec.{Unseen as UnseenSimple}
use anonymous_repo.Wasm.ModifiedLocals.Marks.{
  mark_func as mark_locals, code-marks as code-marks_locals, marks-AllData as marks_locals-AllData,
}
use anonymous_repo.Wasm.ModifiedLocals.Pass.{mark as put_locals}
use anonymous_repo.Wasm.ModifiedLocals.Spec.{Unseen as UnseenLocals, program_loops}
use anonymous_repo.Wasm.LoopCkpt.Spec.{Unseen as UnseenCkpt, reached_program}

-- As the parser leaves it.
abbrev pub IsFresh : Data → Type 0
IsFresh d = d ≡ fresh

module _ (P Q : Data → Type 0) (f : (d : Data) → P d → Q d) where
  mutual
    AllData-map_aux : (i : Inst) → AllData P i → AllData Q i
    AllData-map_aux (branch d) h = f d h
    AllData-map_aux (call d z) h = f d h
    AllData-map_aux (set d z) h = f d h
    AllData-map_aux (loop d k is) h = (f d h.0, AllInsts-map is h.1)
    AllData-map_aux (Inst.block d is) h = (f d h.0, AllInsts-map is h.1)

    AllInsts-map : (is : Insts) → AllInsts P is → AllInsts Q is
    AllInsts-map end h = tt
    AllInsts-map (cons i is) h = (AllData-map_aux i h.0, AllInsts-map is h.1)

  AllFuncs-map : (p : Program) → AllFuncs P p → AllFuncs Q p
  AllFuncs-map [] h = tt
  AllFuncs-map (g ∷ p) (a, b, c) = (f g.info a, AllData-map_aux g.block b, AllFuncs-map p c)

pub fresh-UnseenSimple : (p : Program) → AllFuncs IsFresh p → AllFuncs UnseenSimple p
fresh-UnseenSimple p h = AllFuncs-map IsFresh UnseenSimple (λ d e. ap (λ x. x.simple_func) e) p h

fresh-UnseenLocals : (p : Program) → AllFuncs IsFresh p → AllFuncs UnseenLocals p
fresh-UnseenLocals p h =
    AllFuncs-map IsFresh UnseenLocals (λ d e. ap (λ x. x.modified_locals) e) p h

fresh-UnseenCkpt : (p : Program) → AllFuncs IsFresh p → AllFuncs UnseenCkpt p
fresh-UnseenCkpt p h = AllFuncs-map IsFresh UnseenCkpt (λ d e. ap (λ x. x.loop_ckpt) e) p h

module _ (P : Data → Type 0) (keep : (b : Bool) (d : Data) → P d → P (put_simple b d)) where
  mark_simple-AllFuncs : (p : Program) → AllFuncs P p → AllFuncs P (map mark_simple p)
  unfolding mark_simple
  mark_simple-AllFuncs [] h = tt
  mark_simple-AllFuncs (g ∷ p) (a, b, c) =
      (keep _ g.info a, marks_simple-AllData P keep g.block b, mark_simple-AllFuncs p c)

module _ (P : Data → Type 0) (keep : (l : List ℤ) (d : Data) → P d → P (put_locals l d)) where
  mark_locals-AllFuncs : (p : Program) → AllFuncs P p → AllFuncs P (map mark_locals p)
  unfolding mark_locals
  mark_locals-AllFuncs [] h = tt
  mark_locals-AllFuncs (g ∷ p) (a, b, c) =
      (keep _ g.info a, marks_locals-AllData P keep g.block b, mark_locals-AllFuncs p c)

pub mark_simple-UnseenLocals :
    (p : Program) → AllFuncs IsFresh p → AllFuncs UnseenLocals (map mark_simple p)
unfolding put_simple
mark_simple-UnseenLocals p h =
    mark_simple-AllFuncs UnseenLocals (λ b d e. e) p (fresh-UnseenLocals p h)

pub marks-UnseenCkpt :
    (p : Program) → AllFuncs IsFresh p → AllFuncs UnseenCkpt (map mark_locals (map mark_simple p))
unfolding put_simple put_locals
marks-UnseenCkpt p h =
    mark_locals-AllFuncs UnseenCkpt (λ l d e. e) (map mark_simple p)
      (mark_simple-AllFuncs UnseenCkpt (λ b d e. e) p (fresh-UnseenCkpt p h))

pub program_loops-mark_simple : (p : Program) → program_loops (map mark_simple p) ≡ program_loops p
unfolding program_loops mark_simple
program_loops-mark_simple [] = refl
program_loops-mark_simple (g ∷ p) = simp (code-marks_simple g.block, program_loops-mark_simple p)

pub reached_program-marks :
    (s : List ℤ) (p : Program)
    → reached_program s (map mark_locals (map mark_simple p)) ≡ reached_program s p
unfolding reached_program mark_simple mark_locals
reached_program-marks s [] = refl
reached_program-marks s (g ∷ p) =
    simp (code-marks_locals, code-marks_simple, reached_program-marks s p)
