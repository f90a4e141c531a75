-- ===== src/Wasm/ModifiedLocals/Spec.antt =====
-- What the pass reports: the loops of a program, inner before outer, and which locals a body
-- assigns at any depth.
use anonymous_repo.Prelude.{◌≡◌, Bool, false, ◌||◌, none, List, [], ◌∷◌, ◌++◌, ◌==ℤ◌, ℤ}
use anonymous_repo.Wasm.Syntax.{
  Data, Op, Body, Program, branch, call, set, loop, block, end, cons, code,
}
use anonymous_repo.Wasm.IntSet.{contains, NoRepeats}
use anonymous_repo.Wasm.ModifiedLocals.Pass.{Entry}

unfoldable mutual
  pub assigns : ℤ → Op → Bool
  assigns z branch = false
  assigns z (call k) = false
  assigns z (set k) = k ==ℤ z
  assigns z (loop k b) = assigns_body z b
  assigns z (block b) = assigns_body z b

  pub assigns_body : ℤ → Body → Bool
  assigns_body z end = false
  assigns_body z (cons o b) = assigns z o || assigns_body z b

-- A loop with the function that it stands in.
pub record Loop : Type 0 where
  pub func_idx : ℤ
  pub loop_idx : ℤ
  pub body : Body

unfoldable mutual
  pub loops : ℤ → Op → List Loop
  loops f branch = []
  loops f (call z) = []
  loops f (set z) = []
  loops f (loop k b) = loops_body f b ++ (record { func_idx = f; loop_idx = k; body = b }) ∷ []
  loops f (block b) = loops_body f b

  pub loops_body : ℤ → Body → List Loop
  loops_body f end = []
  loops_body f (cons o b) = loops f o ++ loops_body f b

unfoldable pub program_loops : Program → List Loop
program_loops [] = []
program_loops (g ∷ p) = loops g.func_idx (code g.block) ++ program_loops p

-- An entry names its loop, and its set holds the locals that the body assigns, each once.
abbrev pub Reports : Entry → Loop → Type 0
Reports e l =
    (e.func_idx ≡ l.func_idx)
    × (e.loop_idx ≡ l.loop_idx)
    × NoRepeats e.locals
    × ((z : ℤ) → contains z e.locals ≡ assigns_body z l.body)

abbrev pub ReportsAll : List Entry → List Loop → Type 0
ReportsAll [] [] = Unit
ReportsAll (e ∷ es) (l ∷ ls) = Reports e l × ReportsAll es ls
ReportsAll _ _ = ⊥

abbrev pub Unseen : Data → Type 0
Unseen d = d.modified_locals ≡ none
