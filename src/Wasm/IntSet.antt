-- ===== src/Wasm/IntSet.antt =====
-- Python's `set` of integers as a list without repetitions, and `list.sort` of integers. The order
-- of a set's elements is that of insertion here; nothing below depends on it, but the writer of
-- the modified locals, which takes the order as a parameter.
use mathlib.Core.Path.{subst}
use anonymous_repo.Prelude.{
  ◌∙◌, ◌≡◌, refl, Bool, true, false, ◌||◌, List, [], ◌∷◌, ◌++◌, if◌then◌else◌, arith, ℤ, ◌<ℤ◌,
  ltb_ℤ, ◌==ℤ◌, ==ℤ_iff, Bool-cases, inl, inr,
}

-- `z in s`
unfoldable pub contains : ℤ → List ℤ → Bool
contains z [] = false
contains z (x ∷ xs) = (x ==ℤ z) || contains z xs

-- `s.add(z)`
unfoldable pub add : ℤ → List ℤ → List ℤ
unfolding contains
add z s = if contains z s then s else s ++ z ∷ []

-- `s |= t`, and `set(t)` from the empty set
unfoldable pub union : List ℤ → List ℤ → List ℤ
unfolding add
union s [] = s
union s (x ∷ t) = union (add x s) t

unfoldable pub insert : ℤ → List ℤ → List ℤ
insert z [] = z ∷ []
insert z (x ∷ xs) = if ltb_ℤ x z then x ∷ insert z xs else z ∷ x ∷ xs

-- `l.sort()`
unfoldable pub sort : List ℤ → List ℤ
unfolding insert
sort [] = []
sort (x ∷ xs) = insert x (sort xs)

-- No element twice.
abbrev pub NoRepeats : List ℤ → Type 0
NoRepeats [] = Unit
NoRepeats (x ∷ xs) = (contains x xs ≡ false) × NoRepeats xs

-- Strictly above `x`, and ascending.
abbrev pub AllAbove : ℤ → List ℤ → Type 0
AllAbove x [] = Unit
AllAbove x (y ∷ ys) = (x <ℤ y) × AllAbove x ys

abbrev pub IsAscending : List ℤ → Type 0
IsAscending [] = Unit
IsAscending (x ∷ xs) = AllAbove x xs × IsAscending xs

pub contains-append :
    (z : ℤ) (xs ys : List ℤ) → contains z (xs ++ ys) ≡ (contains z xs || contains z ys)
unfolding contains
contains-append z [] ys = refl
contains-append z (x ∷ xs) ys = ground (arith, contains-append z xs ys)

pub ==ℤ_sym : (a b : ℤ) → (a ==ℤ b) ≡ (b ==ℤ a)
==ℤ_sym a b = ground (arith, ==ℤ_iff a b, ==ℤ_iff b a)

old_element :
    (z x : ℤ) (s : List ℤ) → contains x s ≡ true → contains z s ≡ ((x ==ℤ z) || contains z s)
old_element z x s h = elim (Bool-cases (x ==ℤ z)) [
  | inl e ↦ rw e (subst (λ y. contains y s ≡ true) ((==ℤ_iff x z).0 e) h)
  | inr e ↦ rw e
]

pub contains-add : (z x : ℤ) (s : List ℤ) → contains z (add x s) ≡ ((x ==ℤ z) || contains z s)
unfolding add contains
contains-add z x s = elim (Bool-cases (contains x s)) [
  | inl e ↦ rw e (old_element z x s e)
  | inr e ↦ rw e (ground (arith, contains-append z s (x ∷ [])))
]

pub contains-union :
    (z : ℤ) (s t : List ℤ) → contains z (union s t) ≡ (contains z s || contains z t)
unfolding union contains
contains-union z s [] = ground arith
contains-union z s (x ∷ t) = ground (arith, contains-union z (add x s) t, contains-add z x s)

append-NoRepeats :
    (s : List ℤ) (z : ℤ) → contains z s ≡ false → NoRepeats s → NoRepeats (s ++ z ∷ [])
unfolding contains
append-NoRepeats [] z h k = (refl, tt)
append-NoRepeats (x ∷ s) z h k = (
  ground (arith, contains-append x s (z ∷ []), ==ℤ_sym x z),
  append-NoRepeats s z (ground arith) k.1,
)

pub add-NoRepeats : (z : ℤ) (s : List ℤ) → NoRepeats s → NoRepeats (add z s)
unfolding add
add-NoRepeats z s h = elim (Bool-cases (contains z s)) [
  | inl e ↦ rw e h
  | inr e ↦ rw e (append-NoRepeats s z e h)
]

pub union-NoRepeats : (s t : List ℤ) → NoRepeats s → NoRepeats (union s t)
unfolding union
union-NoRepeats s [] h = h
union-NoRepeats s (x ∷ t) h = union-NoRepeats (add x s) t (add-NoRepeats x s h)

pub contains-insert : (z x : ℤ) (s : List ℤ) → contains z (insert x s) ≡ ((x ==ℤ z) || contains z s)
unfolding insert contains
contains-insert z x [] = refl
contains-insert z x (y ∷ s) = ground (arith, contains-insert z x s)

pub contains-sort : (z : ℤ) (s : List ℤ) → contains z (sort s) ≡ contains z s
unfolding sort contains
contains-sort z [] = refl
contains-sort z (x ∷ s) = ground (arith, contains-insert z x (sort s), contains-sort z s)

-- Two integers that are not equal are in one order or the other.
above_of_not_below : (x y : ℤ) → (x ==ℤ y) ≡ false → ltb_ℤ y x ≡ false → x <ℤ y
above_of_not_below x y h k = ground arith

AllAbove-insert : (w z : ℤ) (s : List ℤ) → w <ℤ z → AllAbove w s → AllAbove w (insert z s)
unfolding insert
AllAbove-insert w z [] h k = (h, tt)
AllAbove-insert w z (y ∷ s) h k = elim (Bool-cases (ltb_ℤ y z)) [
  | inl e ↦ rw e (k.0, AllAbove-insert w z s h k.1)
  | inr e ↦ rw e (h, k)
]

AllAbove-trans : (w z : ℤ) (s : List ℤ) → w <ℤ z → AllAbove z s → AllAbove w s
AllAbove-trans w z [] h k = tt
AllAbove-trans w z (y ∷ s) h k = (omega arith, AllAbove-trans w z s h k.1)

insert-IsAscending :
    (z : ℤ) (s : List ℤ) → contains z s ≡ false → IsAscending s → IsAscending (insert z s)
unfolding insert contains
insert-IsAscending z [] h k = (tt, tt)
insert-IsAscending z (y ∷ s) h k = elim (Bool-cases (ltb_ℤ y z)) [
  | inl e ↦
      rw e (AllAbove-insert y z s (ground arith) k.0, insert-IsAscending z s (ground arith) k.1)
  | inr e ↦
      let lt = above_of_not_below z y (ground (arith, ==ℤ_sym z y)) e in
      rw e ((lt, AllAbove-trans z y s lt k.0), k)
]

pub sort-IsAscending : (s : List ℤ) → NoRepeats s → IsAscending (sort s)
unfolding sort
sort-IsAscending [] h = tt
sort-IsAscending (x ∷ s) h =
    insert-IsAscending x (sort s) (contains-sort x s ∙ h.0) (sort-IsAscending s h.1)
