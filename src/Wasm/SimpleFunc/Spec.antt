-- ===== src/Wasm/SimpleFunc/Spec.antt =====
-- What the pass computes: a function is simple if no call and no loop stands in it, at any depth.
use anonymous_repo.Prelude.{◌≡◌, Bool, true, false, ◌&&◌, ◌||◌, none, [], ◌∷◌, ◌==ℤ◌, ℤ}
use anonymous_repo.Wasm.Syntax.{
  Data, Op, Body, Program, branch, call, set, loop, block, end, cons, code,
}

unfoldable mutual
  pub is_simple : Op → Bool
  is_simple branch = true
  is_simple (call z) = false
  is_simple (set z) = true
  is_simple (loop k b) = false
  is_simple (block b) = is_simple_body b

  pub is_simple_body : Body → Bool
  is_simple_body end = true
  is_simple_body (cons o b) = is_simple o && is_simple_body b

-- A simple function of the program has the index.
unfoldable pub has_simple : ℤ → Program → Bool
has_simple z [] = false
has_simple z (g ∷ p) = (is_simple (code g.block) && (g.func_idx ==ℤ z)) || has_simple z p

-- The pass has not been here.
abbrev pub Unseen : Data → Type 0
Unseen d = d.simple_func ≡ none
