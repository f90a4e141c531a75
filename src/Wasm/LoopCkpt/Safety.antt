-- ===== src/Wasm/LoopCkpt/Safety.antt =====
-- Which loops may lose their checkpoint: never one whose body runs straight through.
use anonymous_repo.Prelude.{
  ◌≡◌, refl, true, ◌⊎◌, inl, inr, List, [], ◌∷◌, ◌++◌, map, ok, ℤ, Bool-cases, All, All-append,
}
use anonymous_repo.Wasm.Syntax.{
  AllFuncs, Op, Body, branch, call, set, loop, block, end, cons, Program, code,
}
use anonymous_repo.Wasm.ModifiedLocals.Spec.{Loop, loops, loops_body, program_loops}
use anonymous_repo.Wasm.LoopCkpt.Pass.{Skip, loop_ckpt_pass}
use anonymous_repo.Wasm.LoopCkpt.Spec.{
  Unseen, stops, stops_body, reached, reached_body, reached_program, skips,
}
use anonymous_repo.Wasm.LoopCkpt.Marks.{mark_func}
use anonymous_repo.Wasm.LoopCkpt.Result.{loop_ckpt_pass_exact}

abbrev pub Listed : Loop → List Loop → Type 0
Listed x [] = ⊥
Listed x (l ∷ ls) = (x ≡ l) ⊎ Listed x ls

-- A reported pair names a loop of the list whose body holds a loop or a call outside the set.
abbrev pub IsJustified : List ℤ → List Loop → Skip → Type 0
IsJustified s ls skip =
    (l : Loop) × Listed l ls
    × (l.func_idx ≡ skip.0)
    × (l.loop_idx ≡ skip.1)
    × (stops_body s l.body ≡ true)

Listed-append_left : (x : Loop) (ls ms : List Loop) → Listed x ls → Listed x (ls ++ ms)
Listed-append_left x [] ms h = absurd h
Listed-append_left x (l ∷ ls) ms (inl e) = inl e
Listed-append_left x (l ∷ ls) ms (inr h) = inr (Listed-append_left x ls ms h)

Listed-append_right : (x : Loop) (ls ms : List Loop) → Listed x ms → Listed x (ls ++ ms)
Listed-append_right x [] ms h = h
Listed-append_right x (l ∷ ls) ms h = inr (Listed-append_right x ls ms h)

abbrev AllListed : List Loop → List Loop → Type 0
AllListed xs ls = All (λ x. Listed x ls) xs

AllListed-left : (xs ls ms : List Loop) → AllListed xs ls → AllListed xs (ls ++ ms)
AllListed-left [] ls ms h = tt
AllListed-left (x ∷ xs) ls ms h = (Listed-append_left x ls ms h.0, AllListed-left xs ls ms h.1)

AllListed-right : (xs ls ms : List Loop) → AllListed xs ms → AllListed xs (ls ++ ms)
AllListed-right [] ls ms h = tt
AllListed-right (x ∷ xs) ls ms h = (Listed-append_right x ls ms h.0, AllListed-right xs ls ms h.1)

-- Two parts, each within its own part of the list.
AllListed-append :
    (xs ys ls ms : List Loop) → AllListed xs ls → AllListed ys ms → AllListed (xs ++ ys) (ls ++ ms)
AllListed-append xs ys ls ms h k =
    All-append (λ x. Listed x (ls ++ ms)) xs ys (AllListed-left xs ls ms h)
      (AllListed-right ys ls ms k)

mutual
  unfolding reached loops

  reached-AllListed : (s : List ℤ) (f : ℤ) (o : Op) → AllListed (reached s f o) (loops f o)
  reached-AllListed s f branch = tt
  reached-AllListed s f (call z) = tt
  reached-AllListed s f (set z) = tt
  reached-AllListed s f (loop k b) =
      AllListed-append (reached_body s f b) _ (loops_body f b)
        ((record { func_idx = f; loop_idx = k; body = b }) ∷ []) (reached_body-AllListed s f b)
        (inl refl, tt)
  reached-AllListed s f (block b) = reached_body-AllListed s f b

  reached_body-AllListed :
      (s : List ℤ) (f : ℤ) (b : Body) → AllListed (reached_body s f b) (loops_body f b)
  reached_body-AllListed s f end = tt
  reached_body-AllListed s f (cons o b) =
      let here = reached-AllListed s f o in
      let there = reached_body-AllListed s f b in
      elim (Bool-cases (stops s o)) [
        | inl e ↦ rw e (AllListed-append (reached s f o) [] (loops f o) (loops_body f b) here tt)
        | inr e ↦ rw e (
            AllListed-append (reached s f o) (reached_body s f b) (loops f o) (loops_body f b) here
              there)
      ]

reached_program-AllListed :
    (s : List ℤ) (p : Program) → AllListed (reached_program s p) (program_loops p)
unfolding reached_program program_loops
reached_program-AllListed s [] = tt
reached_program-AllListed s (g ∷ p) =
    AllListed-append (reached s g.func_idx (code g.block)) (reached_program s p)
      (loops g.func_idx (code g.block)) (program_loops p)
      (reached-AllListed s g.func_idx (code g.block)) (reached_program-AllListed s p)

skips-IsJustified :
    (s : List ℤ) (xs ls : List Loop) → AllListed xs ls → All (IsJustified s ls) (skips s xs)
unfolding skips
skips-IsJustified s [] ls h = tt
skips-IsJustified s (x ∷ xs) ls h =
    let rest = skips-IsJustified s xs ls h.1 in
    elim (Bool-cases (stops_body s x.body)) [
      | inl e ↦ rw e ((x, h.0, refl, refl, e), rest)
      | inr e ↦ rw e rest
    ]

-- On a program that the pass has not seen, every pair that it reports is a loop of that function
-- of the program, and that loop's body, at any depth of blocks, holds another loop or a call of a
-- function outside the set.
pub loop_ckpt_pass-IsJustified :
    (p : Program) (s : List ℤ)
    → AllFuncs Unseen p
    → (results : List Skip) × (loop_ckpt_pass p s ≡ ok (map (mark_func s) p, results))
      × All (IsJustified s (program_loops p)) results
loop_ckpt_pass-IsJustified p s h = (
  skips s (reached_program s p),
  loop_ckpt_pass_exact p s h,
  skips-IsJustified s (reached_program s p) (program_loops p) (reached_program-AllListed s p),
)
