-- ===== src/Wasm/Wat/Places.antt =====
-- The place of a name among the names of a module, and its number.
use mathlib.Core.Path.{subst}
use anonymous_repo.Prelude.{
  ℕ, ◌+◌, suc, leb, ◌≡◌, refl, ◌∙◌, ap, true, false, ◌||◌, List, [], ◌∷◌, ◌++◌, append_assoc,
  append-nil, length, if◌then◌else◌, pos, sub_ℕ, ok, Bool-cases, inl, inr, arith,
}
use anonymous_repo.Text.Str.{Text, text_eq}
use anonymous_repo.Wasm.Sound.Reads.{text_eq→eq}
use anonymous_repo.Wasm.Wat.Defs.{Names, minus, relocate, lookup_func_idx}
use anonymous_repo.Wasm.Wat.Shape.{WatFunc}
use anonymous_repo.Wasm.Wat.Module.{Import, import_names, func_names, has, place, AllNew, number}

-- The names with their places, counted from a number on.
abbrev pub numbered : ℕ → List Text → Names
numbered i [] = []
numbered i (k ∷ ks) = (k, pos i) ∷ numbered (suc i) ks

has-append : (name : Text) (xs ys : List Text) → has name (xs ++ ys) ≡ has name xs || has name ys
has-append name [] ys = refl
has-append name (x ∷ xs) ys =
    let ih = has-append name xs ys in
    elim (Bool-cases (text_eq x name)) [ inl e ↦ rw e refl | inr e ↦ rw e ih ]

place-append :
    (name : Text) (xs ys : List Text)
    → place name (xs ++ ys) ≡ (if has name xs then place name xs else length xs + place name ys)
place-append name [] ys = omega arith
place-append name (x ∷ xs) ys =
    let ih = place-append name xs ys in
    elim (Bool-cases (text_eq x name)) [ inl e ↦ rw e refl | inr e ↦ rw (e, ih) (ground arith) ]

pub lookup-numbered :
    (name : Text) (n i : ℕ) (ks : List Text)
    → has name ks ≡ true
    → lookup_func_idx name (relocate n (numbered i ks)) ≡ ok (sub_ℕ (i + place name ks) n)
unfolding lookup_func_idx relocate minus
lookup-numbered name n i [] h = cc
lookup-numbered name n i (k ∷ ks) h = elim (Bool-cases (text_eq k name)) [
  | inl e ↦ rw e (ap (λ x. ok (sub_ℕ x n)) (omega arith))
  | inr e ↦
      let h' : has name ks ≡ true = ground (arith, h, e) in
      rw e (lookup-numbered name n (suc i) ks h' ∙ ap (λ x. ok (sub_ℕ x n)) (omega arith))
]

pub AllNew-later : (before xs ys : List Text) → AllNew before (xs ++ ys) → AllNew (before ++ xs) ys
AllNew-later before [] ys h = rw (append-nil before) h
AllNew-later before (x ∷ xs) ys (h, hs) =
    subst (λ b. AllNew b ys) (append_assoc before (x ∷ []) xs)
      (AllNew-later (before ++ x ∷ []) xs ys hs)

AllNew-apart :
    (name : Text) (before ks : List Text)
    → AllNew before ks
    → has name ks ≡ true
    → has name before ≡ false
AllNew-apart name before [] n h = cc
AllNew-apart name before (k ∷ ks) (n, ns) h = elim (Bool-cases (text_eq k name)) [
  | inl e ↦ subst (λ x. has x before ≡ false) (text_eq→eq k name e) n
  | inr e ↦
      let h' : has name ks ≡ true = ground (arith, h, e) in
      let ih = AllNew-apart name (before ++ k ∷ []) ks ns h' in
      ground (arith, ih, has-append name before (k ∷ []))
]

length-import_names : (imports : List Import) → length (import_names imports) ≡ length imports
length-import_names [] = refl
length-import_names (i ∷ imports) = ap suc (length-import_names imports)

sub-place : (n p : ℕ) → sub_ℕ (n + p) n ≡ pos p
sub-place n p = let e : leb n (n + p) ≡ true = ground arith in rw e (ap pos (omega arith))

-- The number of a name from its place among all of them.
pub number-place :
    (imports : List Import) (fs : List WatFunc) (name : Text)
    → AllNew [] (import_names imports ++ func_names fs)
    → has name (import_names imports ++ func_names fs) ≡ true
    → sub_ℕ (place name (import_names imports ++ func_names fs)) (length imports)
      ≡ number imports fs name
number-place imports fs name n h = elim (Bool-cases (has name (func_names fs))) [
  | inl e ↦
      let a =
        AllNew-apart name (import_names imports) (func_names fs)
          (AllNew-later [] (import_names imports) (func_names fs) n) e in
      rw
        (
          place-append name (import_names imports) (func_names fs),
          a,
          e,
          length-import_names imports,
        )
        (sub-place (length imports) (place name (func_names fs)))
  | inr e ↦
      let old : has name (import_names imports) ≡ true =
        ground (arith, e, h, has-append name (import_names imports) (func_names fs)) in
      rw (place-append name (import_names imports) (func_names fs), old, e) refl
]
