-- ===== src/Wasm/LoopCkpt/Marks.antt =====
-- The visitors on a tree that they have not seen: the marks and the skips that they leave.
use anonymous_repo.Prelude.{
  ◌≡◌, refl, Bool, true, false, not, List, [], ◌∷◌, ◌++◌, append_assoc, append-nil, if◌then◌else◌,
  ok, arith, ℤ, Bool-cases, inl, inr,
}
use anonymous_repo.Wasm.Syntax.{
  Ckpt, Data, Inst, Insts, branch, call, set, loop, end, cons, Function, data_of, code, codes_of,
  AllData, AllInsts,
}
use anonymous_repo.Wasm.IntSet.{contains}
use anonymous_repo.Wasm.ModifiedLocals.Spec.{Loop}
use anonymous_repo.Wasm.LoopCkpt.Pass.{
  Skip, flags, mark, is_visited, get_mark, visit_call, visit, visit_insts, visit_func,
}
use anonymous_repo.Wasm.LoopCkpt.Spec.{Unseen, stops, stops_body, reached, reached_body, skips}

-- The mark of every visited node: it may run on exactly if it emits no checkpoint.
abbrev pub stop_flags : Bool → Ckpt
stop_flags b = flags (not b) b

unfoldable mutual
  pub marks : List ℤ → Inst → Inst
  marks s (branch d) = branch (mark (stop_flags false) d)
  marks s (call d z) = call (mark (stop_flags (not (contains z s))) d) z
  marks s (set d z) = set (mark (stop_flags false) d) z
  marks s (loop d k is) = loop (mark (stop_flags true) d) k (marks_insts s is)
  marks s (Inst.block d is) =
      Inst.block (mark (stop_flags (stops_body s (codes_of is))) d) (marks_insts s is)

  pub marks_insts : List ℤ → Insts → Insts
  marks_insts s end = end
  marks_insts s (cons i is) = cons (marks s i) (if stops s (code i) then is else marks_insts s is)

unfoldable pub mark_func : List ℤ → Function → Function
mark_func s g = record g { block = marks s g.block }

is_visited-Unseen : (d : Data) → Unseen d → is_visited d ≡ false
unfolding is_visited
is_visited-Unseen d h = rw h

mark-mark : (c c' : Ckpt) (d : Data) → mark c' (mark c d) ≡ mark c' d
unfolding mark
mark-mark c c' d = refl

get_mark-marks :
    (s : List ℤ) (i : Inst) → get_mark (data_of (marks s i)) ≡ ok (stop_flags (stops s (code i)))
unfolding get_mark marks data_of mark stops code
get_mark-marks s (branch d) = refl
get_mark-marks s (call d z) = refl
get_mark-marks s (set d z) = refl
get_mark-marks s (loop d k is) = refl
get_mark-marks s (Inst.block d is) = refl

visit_call-flags : (s : List ℤ) (z : ℤ) → visit_call s z ≡ stop_flags (not (contains z s))
unfolding visit_call
visit_call-flags s z = ground arith

pub skips-append : (s : List ℤ) (ls ms : List Loop) → skips s (ls ++ ms) ≡ skips s ls ++ skips s ms
unfolding skips
skips-append s [] ms = refl
skips-append s (l ∷ ls) ms = simp (skips-append s ls ms, append_assoc)

mutual
  unfolding visit marks reached stops code skips

  visit-marks_aux :
      (s : List ℤ) (f : ℤ) (r : List Skip) (i : Inst)
      → AllData Unseen i
      → visit s f r i ≡ ok (marks s i, r ++ skips s (reached s f (code i)))
  visit-marks_aux s f r (branch d) h = simp (is_visited-Unseen d h, append-nil)
  visit-marks_aux s f r (call d z) h =
      simp (is_visited-Unseen d h, append-nil, visit_call-flags s z)
  visit-marks_aux s f r (set d z) h = simp (is_visited-Unseen d h, append-nil)
  visit-marks_aux s f r (loop d k is) h =
      let inside = visit_insts-marks s f r is h.1 in
      elim (Bool-cases (stops_body s (codes_of is))) [
        | inl e ↦ simp (is_visited-Unseen d h.0, inside, mark-mark, skips-append, e, append_assoc)
        | inr e ↦ simp (is_visited-Unseen d h.0, inside, mark-mark, skips-append, e, append-nil)
      ]
  visit-marks_aux s f r (Inst.block d is) h =
      simp (is_visited-Unseen d h.0, visit_insts-marks s f r is h.1)

  visit_insts-marks :
      (s : List ℤ) (f : ℤ) (r : List Skip) (is : Insts)
      → AllInsts Unseen is
      → visit_insts s f r false is
        ≡ ok (
          marks_insts s is,
          stop_flags (stops_body s (codes_of is)),
          r ++ skips s (reached_body s f (codes_of is)),
        )
  visit_insts-marks s f r end h = simp append-nil
  visit_insts-marks s f r (cons i is) h =
      let here = visit-marks_aux s f r i h.0 in
      let rest = visit_insts-marks s f (r ++ skips s (reached s f (code i))) is h.1 in
      elim (Bool-cases (stops s (code i))) [
        | inl e ↦ simp (here, get_mark-marks s i, e, append-nil)
        | inr e ↦ simp (here, get_mark-marks s i, e, rest, skips-append, append_assoc)
      ]

pub visit_func-mark_func :
    (s : List ℤ) (r : List Skip) (g : Function)
    → Unseen g.info
    → AllData Unseen g.block
    → visit_func s r g ≡ ok (mark_func s g, r ++ skips s (reached s g.func_idx (code g.block)))
unfolding visit_func mark_func
visit_func-mark_func s r g h k =
    simp (is_visited-Unseen g.info h, visit-marks_aux s g.func_idx r g.block k)
