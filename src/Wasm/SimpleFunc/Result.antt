-- ===== src/Wasm/SimpleFunc/Result.antt =====
-- The result of the whole pass: one round finds every simple function, and the loop that repeats
-- the rounds stops after one more.
use anonymous_repo.Prelude.{
  ℕ, suc, ◌≡◌, refl, ◌∙◌, true, ◌||◌, List, [], ◌∷◌, map, if◌then◌else◌, ok, Bool-cases, inl, inr,
  arith, ℤ, length, ==_iff, ==ℤ_iff,
}
use anonymous_repo.Wasm.Syntax.{AllFuncs, Function, Program, code}
use anonymous_repo.Wasm.IntSet.{
  contains, add, sort, NoRepeats, IsAscending, contains-add, add-NoRepeats, contains-sort,
  sort-IsAscending,
}
use anonymous_repo.Wasm.SimpleFunc.Pass.{iteration, repeat, simple_func_pass}
use anonymous_repo.Wasm.SimpleFunc.Spec.{is_simple, has_simple, Unseen}
use anonymous_repo.Wasm.SimpleFunc.Marks.{
  mark_func, visit_func-mark_func, visit_func-mark_func_again, get_mark-mark_func,
}

-- The set after a round that began with `s`.
unfoldable pub add_simple : List ℤ → Program → List ℤ
add_simple s [] = s
add_simple s (g ∷ p) = add_simple (if is_simple (code g.block) then add g.func_idx s else s) p

func_idx-mark_func : (g : Function) → (mark_func g).func_idx ≡ g.func_idx
unfolding mark_func
func_idx-mark_func g = refl

iteration-Unseen :
    (s : List ℤ) (p : Program)
    → AllFuncs Unseen p
    → iteration s p ≡ ok (map mark_func p, add_simple s p)
unfolding iteration add_simple
iteration-Unseen s [] h = refl
iteration-Unseen s (g ∷ p) h =
    let rest = iteration-Unseen (if is_simple (code g.block) then add g.func_idx s else s) p h.2 in
    simp (visit_func-mark_func s g h.0 h.1, get_mark-mark_func g, func_idx-mark_func g, rest)

iteration-marked :
    (s : List ℤ) (p : Program)
    → iteration s (map mark_func p) ≡ ok (map mark_func p, add_simple s p)
unfolding iteration add_simple
iteration-marked s [] = refl
iteration-marked s (g ∷ p) =
    let rest = iteration-marked (if is_simple (code g.block) then add g.func_idx s else s) p in
    simp (visit_func-mark_func_again s g, get_mark-mark_func g, func_idx-mark_func g, rest)

contains-add_simple :
    (z : ℤ) (s : List ℤ) (p : Program)
    → contains z (add_simple s p) ≡ (contains z s || has_simple z p)
unfolding add_simple has_simple
contains-add_simple z s [] = ground arith
contains-add_simple z s (g ∷ p) =
    let rest = contains-add_simple z (if is_simple (code g.block) then add g.func_idx s else s) p in
    elim (Bool-cases (is_simple (code g.block))) [
      | inl e ↦ rw e (ground (arith, rest, contains-add z g.func_idx s))
      | inr e ↦ rw e (ground (arith, rest))
    ]

add_simple-NoRepeats : (s : List ℤ) (p : Program) → NoRepeats s → NoRepeats (add_simple s p)
unfolding add_simple
add_simple-NoRepeats s [] h = h
add_simple-NoRepeats s (g ∷ p) h = elim (Bool-cases (is_simple (code g.block))) [
  | inl e ↦ rw e (add_simple-NoRepeats (add g.func_idx s) p (add-NoRepeats g.func_idx s h))
  | inr e ↦ rw e (add_simple-NoRepeats s p h)
]

-- Adding what is there already changes nothing.
add_simple_stable :
    (s : List ℤ) (p : Program)
    → ((z : ℤ) → has_simple z p ≡ true → contains z s ≡ true)
    → add_simple s p ≡ s
unfolding add_simple has_simple add
add_simple_stable s [] h = refl
add_simple_stable s (g ∷ p) h =
    let rest = add_simple_stable s p (λ z q. h z (ground (arith, q))) in
    elim (Bool-cases (is_simple (code g.block))) [
      | inl e ↦
          let here = h g.func_idx (ground (arith, e, ==ℤ_iff g.func_idx g.func_idx)) in
          simp (e, here, rest)
      | inr e ↦ simp (e, rest)
    ]

simple_funcs : Program → List ℤ
simple_funcs p = add_simple [] p

second_round : (p : Program) → add_simple (simple_funcs p) p ≡ simple_funcs p
unfolding simple_funcs contains
second_round p = add_simple_stable (add_simple [] p) p (λ z h. contains-add_simple z [] p ∙ h)

pub simple_func_pass-eq :
    (f : ℕ) (p : Program)
    → AllFuncs Unseen p
    → simple_func_pass (suc f) p ≡ ok (map mark_func p, sort (add_simple [] p))
unfolding simple_func_pass repeat simple_funcs
simple_func_pass-eq f p h = simp (
  iteration-Unseen [] p h,
  iteration-marked (add_simple [] p) p,
  second_round p,
  (==_iff (length (add_simple [] p)) (length (add_simple [] p))).1 refl,
)

-- On a program that the pass has not seen, one round of the loop is enough: the pass raises
-- nothing, and gives the indices, ascending and without repetition, of exactly those functions
-- that contain no call and no loop.
pub simple_func_pass_exact :
    (f : ℕ) (p : Program)
    → AllFuncs Unseen p
    → (found : List ℤ) × (simple_func_pass (suc f) p ≡ ok (map mark_func p, found))
      × IsAscending found
      × ((z : ℤ) → contains z found ≡ has_simple z p)
unfolding contains
simple_func_pass_exact f p h =
    let s = add_simple [] p in
    (
      sort s,
      simple_func_pass-eq f p h,
      sort-IsAscending s (add_simple-NoRepeats [] p tt),
      λ z. contains-sort z s ∙ contains-add_simple z [] p,
    )
