-- ===== src/Wasm/LoopCkpt/Spec.antt =====
-- What the pass computes. An operation stops the straight run through a body if it is a loop, a
-- call of a function that is not simple, or a block in which something stops.
use anonymous_repo.Prelude.{
  ◌≡◌, Bool, true, false, ◌||◌, not, none, List, [], ◌∷◌, ◌++◌, if◌then◌else◌, ℤ,
}
use anonymous_repo.Wasm.Syntax.{
  Data, Op, Body, Program, branch, call, set, loop, block, end, cons, code,
}
use anonymous_repo.Wasm.IntSet.{contains}
use anonymous_repo.Wasm.ModifiedLocals.Spec.{Loop}

unfoldable mutual
  pub stops : List ℤ → Op → Bool
  stops s branch = false
  stops s (call z) = not (contains z s)
  stops s (set z) = false
  stops s (loop k b) = true
  stops s (block b) = stops_body s b

  pub stops_body : List ℤ → Body → Bool
  stops_body s end = false
  stops_body s (cons o b) = stops s o || stops_body s b

-- The loops that are reached: those with nothing that stops before them in the bodies around them.
unfoldable mutual
  pub reached : List ℤ → ℤ → Op → List Loop
  reached s f branch = []
  reached s f (call z) = []
  reached s f (set z) = []
  reached s f (loop k b) =
      reached_body s f b ++ (record { func_idx = f; loop_idx = k; body = b }) ∷ []
  reached s f (block b) = reached_body s f b

  pub reached_body : List ℤ → ℤ → Body → List Loop
  reached_body s f end = []
  reached_body s f (cons o b) = reached s f o ++ (if stops s o then [] else reached_body s f b)

unfoldable pub reached_program : List ℤ → Program → List Loop
reached_program s [] = []
reached_program s (g ∷ p) = reached s g.func_idx (code g.block) ++ reached_program s p

-- Of these, the loops whose body holds something that stops.
unfoldable pub skips : List ℤ → List Loop → List (ℤ × ℤ)
skips s [] = []
skips s (l ∷ ls) = (if stops_body s l.body then (l.func_idx, l.loop_idx) ∷ [] else []) ++ skips s ls

abbrev pub Unseen : Data → Type 0
Unseen d = d.loop_ckpt ≡ none
