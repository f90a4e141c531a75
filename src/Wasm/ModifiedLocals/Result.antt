-- ===== src/Wasm/ModifiedLocals/Result.antt =====
-- The result of the whole pass against the loops of the program.
use anonymous_repo.Prelude.{
  ◌≡◌, refl, ◌||◌, List, [], ◌∷◌, ◌++◌, map, append_assoc, append-nil, ok, arith, ℤ,
}
use anonymous_repo.Wasm.Syntax.{
  AllFuncs, Inst, Insts, branch, call, set, loop, end, cons, Program, code, codes_of,
}
use anonymous_repo.Wasm.IntSet.{contains, union, NoRepeats, contains-union, union-NoRepeats}
use anonymous_repo.Wasm.ModifiedLocals.Pass.{Entry, visit_funcs, modified_locals_pass}
use anonymous_repo.Wasm.ModifiedLocals.Spec.{
  assigns, assigns_body, Loop, loops, loops_body, program_loops, ReportsAll, Unseen,
}
use anonymous_repo.Wasm.ModifiedLocals.Marks.{
  locals_of, locals_from, entries, entries_insts, mark_func, visit_func-mark_func,
}

mutual
  unfolding locals_of assigns code contains

  contains-locals_of_aux : (z : ℤ) (i : Inst) → contains z (locals_of i) ≡ assigns z (code i)
  contains-locals_of_aux z (branch d) = refl
  contains-locals_of_aux z (call d k) = refl
  contains-locals_of_aux z (set d k) = ground (arith, contains-union z [] (k ∷ []))
  contains-locals_of_aux z (loop d k is) = contains-locals_from z [] is
  contains-locals_of_aux z (Inst.block d is) = contains-locals_from z [] is

  contains-locals_from :
      (z : ℤ) (s : List ℤ) (is : Insts)
      → contains z (locals_from s is) ≡ (contains z s || assigns_body z (codes_of is))
  contains-locals_from z s end = ground arith
  contains-locals_from z s (cons i is) = ground (
    arith,
    contains-locals_from z (union s (locals_of i)) is,
    contains-union z s (locals_of i),
    contains-locals_of_aux z i,
  )

body_locals : (z : ℤ) (is : Insts) → contains z (locals_from [] is) ≡ assigns_body z (codes_of is)
unfolding contains
body_locals z is = contains-locals_from z [] is

locals_from-NoRepeats : (s : List ℤ) (is : Insts) → NoRepeats s → NoRepeats (locals_from s is)
unfolding locals_from
locals_from-NoRepeats s end h = h
locals_from-NoRepeats s (cons i is) h =
    locals_from-NoRepeats (union s (locals_of i)) is (union-NoRepeats s (locals_of i) h)

ReportsAll-append :
    (es fs : List Entry) (ls ms : List Loop)
    → ReportsAll es ls
    → ReportsAll fs ms
    → ReportsAll (es ++ fs) (ls ++ ms)
ReportsAll-append [] fs [] ms h k = k
ReportsAll-append (e ∷ es) fs (l ∷ ls) ms h k = (h.0, ReportsAll-append es fs ls ms h.1 k)
ReportsAll-append [] fs (l ∷ ls) ms h k = absurd h
ReportsAll-append (e ∷ es) fs [] ms h k = absurd h

mutual
  unfolding entries loops code

  entries-ReportsAll_aux : (f : ℤ) (i : Inst) → ReportsAll (entries f i) (loops f (code i))
  entries-ReportsAll_aux f (branch d) = tt
  entries-ReportsAll_aux f (call d k) = tt
  entries-ReportsAll_aux f (set d k) = tt
  entries-ReportsAll_aux f (loop d k is) =
      let here : ReportsAll
          ((record { func_idx = f; loop_idx = k; locals = locals_from [] is }) ∷ [])
          ((record { func_idx = f; loop_idx = k; body = codes_of is }) ∷ []) =
        ((refl, refl, locals_from-NoRepeats [] is tt, λ z. body_locals z is), tt) in
      ReportsAll-append (entries_insts f is) _ (loops_body f (codes_of is)) _
        (entries_insts-ReportsAll f is) here
  entries-ReportsAll_aux f (Inst.block d is) = entries_insts-ReportsAll f is

  entries_insts-ReportsAll :
      (f : ℤ) (is : Insts) → ReportsAll (entries_insts f is) (loops_body f (codes_of is))
  entries_insts-ReportsAll f end = tt
  entries_insts-ReportsAll f (cons i is) =
      ReportsAll-append (entries f i) (entries_insts f is) (loops f (code i))
        (loops_body f (codes_of is)) (entries-ReportsAll_aux f i) (entries_insts-ReportsAll f is)

program_entries : Program → List Entry
program_entries [] = []
program_entries (g ∷ p) = entries g.func_idx g.block ++ program_entries p

visit_funcs-mark_func :
    (r : List Entry) (p : Program)
    → AllFuncs Unseen p
    → visit_funcs r p ≡ ok (map mark_func p, r ++ program_entries p)
unfolding visit_funcs program_entries
visit_funcs-mark_func r [] h = simp append-nil
visit_funcs-mark_func r (g ∷ p) h = simp (
  visit_func-mark_func r g h.0 h.1,
  visit_funcs-mark_func (r ++ entries g.func_idx g.block) p h.2,
  append_assoc,
)

program_entries-ReportsAll : (p : Program) → ReportsAll (program_entries p) (program_loops p)
unfolding program_entries program_loops
program_entries-ReportsAll [] = tt
program_entries-ReportsAll (g ∷ p) =
    ReportsAll-append (entries g.func_idx g.block) (program_entries p)
      (loops g.func_idx (code g.block)) (program_loops p)
      (entries-ReportsAll_aux g.func_idx g.block) (program_entries-ReportsAll p)

-- On a program that the pass has not seen, it raises nothing and reports every loop once, an inner
-- loop before the one around it; the set of a loop holds exactly the locals that its body
-- assigns at any depth, each once.
pub modified_locals_pass_exact :
    (p : Program)
    → AllFuncs Unseen p
    → (results : List Entry) × (modified_locals_pass p ≡ ok (map mark_func p, results))
      × ReportsAll results (program_loops p)
unfolding modified_locals_pass
modified_locals_pass_exact p h =
    (program_entries p, visit_funcs-mark_func [] p h, program_entries-ReportsAll p)
