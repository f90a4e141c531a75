-- ===== src/Wasm/ModifiedLocals/Marks.antt =====
-- The visitors on a tree that they have not seen: the marks and the entries that they leave.
use anonymous_repo.Prelude.{
  ◌≡◌, refl, ap, false, List, [], ◌∷◌, ◌++◌, append_assoc, append-nil, ok, ℤ,
}
use anonymous_repo.Wasm.Syntax.{
  Data, Op, Inst, Insts, branch, call, set, loop, end, cons, Function, data_of, code, codes_of,
  AllData, AllInsts,
}
use anonymous_repo.Wasm.IntSet.{union}
use anonymous_repo.Wasm.ModifiedLocals.Pass.{
  Entry, mark, is_visited, get_mark, visit, visit_insts, visit_func,
}
use anonymous_repo.Wasm.ModifiedLocals.Spec.{Unseen}

-- The set that the pass computes for an instruction, and for a body on top of `s`.
unfoldable mutual
  pub locals_of : Inst → List ℤ
  locals_of (branch d) = []
  locals_of (call d z) = []
  locals_of (set d z) = union [] (z ∷ [])
  locals_of (loop d k is) = locals_from [] is
  locals_of (Inst.block d is) = locals_from [] is

  pub locals_from : List ℤ → Insts → List ℤ
  locals_from s end = s
  locals_from s (cons i is) = locals_from (union s (locals_of i)) is

unfoldable mutual
  pub marks : Inst → Inst
  marks (branch d) = branch (mark [] d)
  marks (call d z) = call (mark [] d) z
  marks (set d z) = set (mark (union [] (z ∷ [])) d) z
  marks (loop d k is) = loop (mark (locals_from [] is) d) k (marks_insts is)
  marks (Inst.block d is) = Inst.block (mark (locals_from [] is) d) (marks_insts is)

  pub marks_insts : Insts → Insts
  marks_insts end = end
  marks_insts (cons i is) = cons (marks i) (marks_insts is)

unfoldable mutual
  pub entries : ℤ → Inst → List Entry
  entries f (branch d) = []
  entries f (call d z) = []
  entries f (set d z) = []
  entries f (loop d k is) =
      entries_insts f is ++ (record { func_idx = f; loop_idx = k; locals = locals_from [] is }) ∷ []
  entries f (Inst.block d is) = entries_insts f is

  pub entries_insts : ℤ → Insts → List Entry
  entries_insts f end = []
  entries_insts f (cons i is) = entries f i ++ entries_insts f is

unfoldable pub mark_func : Function → Function
mark_func g = record g { info = mark (locals_of g.block) g.info; block = marks g.block }

is_visited-Unseen : (d : Data) → Unseen d → is_visited d ≡ false
unfolding is_visited
is_visited-Unseen d h = rw h

get_mark-marks : (i : Inst) → get_mark (data_of (marks i)) ≡ ok (locals_of i)
unfolding get_mark marks data_of locals_of mark
get_mark-marks (branch d) = refl
get_mark-marks (call d z) = refl
get_mark-marks (set d z) = refl
get_mark-marks (loop d k is) = refl
get_mark-marks (Inst.block d is) = refl

mutual
  unfolding visit marks entries locals_of

  visit-marks_aux :
      (f : ℤ) (r : List Entry) (i : Inst)
      → AllData Unseen i
      → visit f r i ≡ ok (marks i, r ++ entries f i)
  visit-marks_aux f r (branch d) h = simp (is_visited-Unseen d h, append-nil)
  visit-marks_aux f r (call d z) h = simp (is_visited-Unseen d h, append-nil)
  visit-marks_aux f r (set d z) h = simp (is_visited-Unseen d h, append-nil)
  visit-marks_aux f r (loop d k is) h =
      simp (is_visited-Unseen d h.0, visit_insts-marks f r [] is h.1, append_assoc)
  visit-marks_aux f r (Inst.block d is) h =
      simp (is_visited-Unseen d h.0, visit_insts-marks f r [] is h.1)

  visit_insts-marks :
      (f : ℤ) (r : List Entry) (s : List ℤ) (is : Insts)
      → AllInsts Unseen is
      → visit_insts f r s is ≡ ok (marks_insts is, locals_from s is, r ++ entries_insts f is)
  visit_insts-marks f r s end h = simp append-nil
  visit_insts-marks f r s (cons i is) h =
      let rest = visit_insts-marks f (r ++ entries f i) (union s (locals_of i)) is h.1 in
      simp (visit-marks_aux f r i h.0, get_mark-marks i, rest, append_assoc)

pub visit_func-mark_func :
    (r : List Entry) (g : Function)
    → Unseen g.info
    → AllData Unseen g.block
    → visit_func r g ≡ ok (mark_func g, r ++ entries g.func_idx g.block)
unfolding visit_func mark_func
visit_func-mark_func r g h k =
    simp
      (is_visited-Unseen g.info h, visit-marks_aux g.func_idx r g.block k, get_mark-marks g.block)

mutual
  unfolding marks code

  code-marks_aux : (i : Inst) → code (marks i) ≡ code i
  code-marks_aux (branch d) = refl
  code-marks_aux (call d z) = refl
  code-marks_aux (set d z) = refl
  code-marks_aux (loop d k is) = ap (Op.loop k) (codes_of-marks_insts is)
  code-marks_aux (Inst.block d is) = ap Op.block (codes_of-marks_insts is)

  codes_of-marks_insts : (is : Insts) → codes_of (marks_insts is) ≡ codes_of is
  codes_of-marks_insts end = refl
  codes_of-marks_insts (cons i is) = cc (code-marks_aux i, codes_of-marks_insts is)

pub code-marks : (i : Inst) → code (marks i) ≡ code i
code-marks i = code-marks_aux i

module _ (P : Data → Type 0) (keep : (l : List ℤ) (d : Data) → P d → P (mark l d)) where
  mutual
    unfolding marks

    marks-AllData_aux : (i : Inst) → AllData P i → AllData P (marks i)
    marks-AllData_aux (branch d) h = keep [] d h
    marks-AllData_aux (call d z) h = keep [] d h
    marks-AllData_aux (set d z) h = keep (union [] (z ∷ [])) d h
    marks-AllData_aux (loop d k is) h =
        (keep (locals_from [] is) d h.0, marks_insts-AllInsts is h.1)
    marks-AllData_aux (Inst.block d is) h =
        (keep (locals_from [] is) d h.0, marks_insts-AllInsts is h.1)

    marks_insts-AllInsts : (is : Insts) → AllInsts P is → AllInsts P (marks_insts is)
    marks_insts-AllInsts end h = tt
    marks_insts-AllInsts (cons i is) h = (marks-AllData_aux i h.0, marks_insts-AllInsts is h.1)

  pub marks-AllData : (i : Inst) → AllData P i → AllData P (marks i)
  marks-AllData i h = marks-AllData_aux i h
