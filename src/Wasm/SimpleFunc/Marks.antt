-- ===== src/Wasm/SimpleFunc/Marks.antt =====
-- The visitors on a tree that they have not seen: which marks they leave.
use anonymous_repo.Prelude.{
  ◌≡◌, refl, ap, Bool, true, false, some, List, if◌then◌else◌, ok, Bool-cases, inl, inr, arith, ℤ,
}
use anonymous_repo.Wasm.Syntax.{
  Data, Op, Inst, Insts, branch, call, set, loop, end, cons, Function, data_of, code, codes_of,
  AllData, AllInsts,
}
use anonymous_repo.Wasm.SimpleFunc.Pass.{
  mark, is_visited, get_mark, visit_call, visit, visit_insts, visit_func,
}
use anonymous_repo.Wasm.SimpleFunc.Spec.{is_simple, is_simple_body, Unseen}

-- Instructions behind the first that is not simple keep their data.
unfoldable mutual
  unfolding mark

  pub marks : Inst → Inst
  marks (branch d) = branch (mark true d)
  marks (call d z) = call (mark false d) z
  marks (set d z) = set (mark true d) z
  marks (loop d k is) = loop (mark false d) k is
  marks (Inst.block d is) = Inst.block (mark (is_simple_body (codes_of is)) d) (marks_insts is)

  pub marks_insts : Insts → Insts
  marks_insts end = end
  marks_insts (cons i is) = cons (marks i) (if is_simple (code i) then marks_insts is else is)

unfoldable pub mark_func : Function → Function
mark_func g = record g { info = mark (is_simple (code g.block)) g.info; block = marks g.block }

pub simple_func-marks : (i : Inst) → (data_of (marks i)).simple_func ≡ some (is_simple (code i))
unfolding data_of marks is_simple code
simple_func-marks (branch d) = refl
simple_func-marks (call d z) = refl
simple_func-marks (set d z) = refl
simple_func-marks (loop d k is) = refl
simple_func-marks (Inst.block d is) = refl

visit_call-Unseen : (s : List ℤ) (d : Data) (z : ℤ) → visit_call s d z ≡ mark false d
unfolding visit_call
visit_call-Unseen s d z = ground arith

is_visited-Unseen : (d : Data) → Unseen d → is_visited d ≡ false
unfolding is_visited
is_visited-Unseen d h = rw h

get_mark-marks : (i : Inst) → get_mark (data_of (marks i)) ≡ ok (is_simple (code i))
unfolding get_mark
get_mark-marks i = simp (simple_func-marks i)

mutual
  unfolding visit marks is_simple code

  visit-marks_aux : (s : List ℤ) (i : Inst) → AllData Unseen i → visit s i ≡ ok (marks i)
  visit-marks_aux s (branch d) h = simp (is_visited-Unseen d h)
  visit-marks_aux s (call d z) h = simp (is_visited-Unseen d h, visit_call-Unseen s d z)
  visit-marks_aux s (set d z) h = simp (is_visited-Unseen d h)
  visit-marks_aux s (loop d k is) h = simp (is_visited-Unseen d h.0)
  visit-marks_aux s (Inst.block d is) h = simp (is_visited-Unseen d h.0, visit_insts-marks s is h.1)

  visit_insts-marks :
      (s : List ℤ) (is : Insts)
      → AllInsts Unseen is
      → visit_insts s is ≡ ok (marks_insts is, is_simple_body (codes_of is))
  visit_insts-marks s end h = refl
  visit_insts-marks s (cons i is) h =
      let here = visit-marks_aux s i h.0 in
      let mark_here = get_mark-marks i in
      let there = visit_insts-marks s is h.1 in
      elim (Bool-cases (is_simple (code i))) [
        | inl e ↦ simp (here, mark_here, e, there)
        | inr e ↦ simp (here, mark_here, e)
      ]

pub visit_func-mark_func :
    (s : List ℤ) (g : Function)
    → Unseen g.info
    → AllData Unseen g.block
    → visit_func s g ≡ ok (mark_func g)
unfolding visit_func mark_func
visit_func-mark_func s g h k =
    simp (is_visited-Unseen g.info h, visit-marks_aux s g.block k, get_mark-marks g.block)

-- A marked function is not visited again.
pub visit_func-mark_func_again :
    (s : List ℤ) (g : Function) → visit_func s (mark_func g) ≡ ok (mark_func g)
unfolding visit_func mark_func is_visited mark
visit_func-mark_func_again s g = refl

pub get_mark-mark_func :
    (g : Function) → get_mark (mark_func g).info ≡ ok (is_simple (code g.block))
unfolding get_mark mark_func mark
get_mark-mark_func g = refl

-- The pass writes its own key only: the tree and the other keys stay.
mutual
  unfolding marks code is_simple

  code-marks_aux : (i : Inst) → code (marks i) ≡ code i
  code-marks_aux (branch d) = refl
  code-marks_aux (call d z) = refl
  code-marks_aux (set d z) = refl
  code-marks_aux (loop d k is) = refl
  code-marks_aux (Inst.block d is) = ap Op.block (codes_of-marks_insts is)

  codes_of-marks_insts : (is : Insts) → codes_of (marks_insts is) ≡ codes_of is
  codes_of-marks_insts end = refl
  codes_of-marks_insts (cons i is) =
      let here = code-marks_aux i in
      let there = codes_of-marks_insts is in
      elim (Bool-cases (is_simple (code i))) [ inl e ↦ rw (e, here, there) | inr e ↦ rw (e, here) ]

pub code-marks : (i : Inst) → code (marks i) ≡ code i
code-marks i = code-marks_aux i

module _ (P : Data → Type 0) (keep : (b : Bool) (d : Data) → P d → P (mark b d)) where
  mutual
    unfolding marks

    marks-AllData_aux : (i : Inst) → AllData P i → AllData P (marks i)
    marks-AllData_aux (branch d) h = keep true d h
    marks-AllData_aux (call d z) h = keep false d h
    marks-AllData_aux (set d z) h = keep true d h
    marks-AllData_aux (loop d k is) h = (keep false d h.0, h.1)
    marks-AllData_aux (Inst.block d is) h =
        (keep (is_simple_body (codes_of is)) d h.0, marks_insts-AllInsts is h.1)

    marks_insts-AllInsts : (is : Insts) → AllInsts P is → AllInsts P (marks_insts is)
    marks_insts-AllInsts end h = tt
    marks_insts-AllInsts (cons i is) h =
        let here = marks-AllData_aux i h.0 in
        let there = marks_insts-AllInsts is h.1 in
        elim (Bool-cases (is_simple (code i))) [
          | inl e ↦ rw e (here, there)
          | inr e ↦ rw e (here, h.1)
        ]

  pub marks-AllData : (i : Inst) → AllData P i → AllData P (marks i)
  marks-AllData i h = marks-AllData_aux i h
