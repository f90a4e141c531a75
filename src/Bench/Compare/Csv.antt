-- ===== src/Bench/Compare/Csv.antt =====
-- When `write_to_csv` of the comparison scripts finds a row for each row of MVVM.
use anonymous_repo.Prelude.{
  ℕ, zero, suc, ◌+◌, ◌<◌, ◌≤◌, ◌≡◌, refl, ◌∙◌, sym, ap, ◌↔◌, Option, none, some, List, [], ◌∷◌,
  length, get_elem?, map, drop, All, arith, ok, or_raise, index_error, bind-ok,
}
use anonymous_repo.Text.Str.{Text}
use anonymous_repo.Bench.Compare.Jobs.{columns_at, csv_rows}

module _ {A : Type 0} where
  abbrev pub tail_of : List A → List A
  tail_of [] = []
  tail_of (x ∷ xs) = xs

  tail-drop : (xs : List A) (i : ℕ) → tail_of (drop i xs) ≡ drop (suc i) xs
  tail-drop [] zero = refl
  tail-drop [] (suc i) = refl
  tail-drop (x ∷ xs) zero = refl
  tail-drop (x ∷ xs) (suc i) = tail-drop xs i

  drop-in_range :
      (xs : List A) (i : ℕ)
      → i < length xs
      → (x : A) × (get_elem? xs i ≡ some x) × (drop i xs ≡ x ∷ drop (suc i) xs)
  drop-in_range [] i h = absurd (omega arith)
  drop-in_range (x ∷ xs) zero h = (x, refl, refl)
  drop-in_range (x ∷ xs) (suc i) h = drop-in_range xs i (omega arith)

  in_range-get_elem? : (xs : List A) (i : ℕ) (x : A) → get_elem? xs i ≡ some x → i < length xs
  in_range-get_elem? [] i x h = cc
  in_range-get_elem? (y ∷ xs) zero x h = omega arith
  in_range-get_elem? (y ∷ xs) (suc i) x h = let rest = in_range-get_elem? xs i x h in omega arith

  or_raise-ok : (o : Option A) (x : A) → or_raise index_error o ≡ ok x → (y : A) × (o ≡ some y)
  or_raise-ok none x h = cc
  or_raise-ok (some y) x h = (y, refl)

module _ {V : Type 0} where
  -- The first row of each list, and the rest of each.
  abbrev pub firsts : List (List (Text × V)) → List V
  firsts [] = []
  firsts ([] ∷ rs) = firsts rs
  firsts ((row ∷ r) ∷ rs) = row.1 ∷ firsts rs

  abbrev pub rests : List (List (Text × V)) → List (List (Text × V))
  rests rs = map tail_of rs

  columns_at-firsts :
      (i : ℕ) (others : List (List (Text × V)))
      → All (λ r. i < length r) others
      → columns_at i others ≡ ok (firsts (map (λ r. drop i r) others))
  unfolding columns_at
  columns_at-firsts i [] h = refl
  columns_at-firsts i (r ∷ others) (h, hs) =
      let (row, e, d) = drop-in_range r i h in rw (e, d, columns_at-firsts i others hs) refl

  rests-drop :
      (i : ℕ) (others : List (List (Text × V)))
      → rests (map (λ r. drop i r) others) ≡ map (λ r. drop (suc i) r) others
  rests-drop i [] = refl
  rests-drop i (r ∷ others) = simp (tail-drop r i, rests-drop i others)

  ok-columns_at :
      (i : ℕ) (others : List (List (Text × V))) (vs : List V)
      → columns_at i others ≡ ok vs
      → All (λ r. i < length r) others
  unfolding columns_at
  ok-columns_at i [] vs h = tt
  ok-columns_at i (r ∷ others) vs h =
      let (row, e, k) = bind-ok (or_raise index_error (get_elem? r i)) _ h in
      let (us, es, _) = bind-ok (columns_at i others) _ k in
      let (x, e') = or_raise-ok (get_elem? r i) row e in
      (in_range-get_elem? r i x e', ok-columns_at i others us es)

  All-long : (others : List (List (Text × V))) → All (λ r. 0 ≤ length r) others
  All-long [] = tt
  All-long (r ∷ others) = (omega arith, All-long others)

  map-drop : (others : List (List (Text × V))) → map (λ r. drop 0 r) others ≡ others
  map-drop [] = refl
  map-drop (r ∷ others) = ap (λ x. r ∷ x) (map-drop others)

module _ {A : Type 0} (P Q : A → Type 0) (f : (a : A) → P a → Q a) where
  All-map : (xs : List A) → All P xs → All Q xs
  All-map [] h = tt
  All-map (x ∷ xs) (h, hs) = (f x h, All-map xs hs)

module _ {T V : Type 0} where
  -- Each row with the times that stand at its place in the other lists.
  abbrev pub side_by_side : List (Text × T) → List (List (Text × V)) → List (Text × T × List V)
  side_by_side [] others = []
  side_by_side ((name, t) ∷ rows) others =
      (name, t, firsts others) ∷ side_by_side rows (rests others)

  csv_rows-ok :
      (i : ℕ) (rows : List (Text × T)) (others : List (List (Text × V)))
      → All (λ r. i + length rows ≤ length r) others
      → csv_rows i rows others ≡ ok (side_by_side rows (map (λ r. drop i r) others))
  unfolding csv_rows
  csv_rows-ok i [] others h = refl
  csv_rows-ok i ((name, t) ∷ rows) others h =
      let now =
        All-map (λ r. i + suc (length rows) ≤ length r) (λ r. i < length r) (λ r k. omega arith)
          others h in
      let later = csv_rows-ok (suc i) rows others (
        All-map (λ r. i + suc (length rows) ≤ length r) (λ r. suc i + length rows ≤ length r)
          (λ r k. omega arith) others h) in
      rw (columns_at-firsts i others now, later)
        (ap (λ x. ok ((name, t, firsts (map (λ r. drop i r) others)) ∷ side_by_side rows x))
          (sym (rests-drop i others)))

  ok-csv_rows :
      (i : ℕ) (rows : List (Text × T)) (others : List (List (Text × V)))
      (out : List (Text × T × List V))
      → csv_rows i rows others ≡ ok out
      → (j : ℕ) → j < length rows
      → All (λ r. i + j < length r) others
  unfolding csv_rows
  ok-csv_rows i [] others out h j k = absurd (omega arith)
  ok-csv_rows i ((name, t) ∷ rows) others out h zero k =
      let (vs, e, _) = bind-ok (columns_at i others) _ h in
      All-map (λ r. i < length r) (λ r. i + 0 < length r) (λ r x. omega arith) others
        (ok-columns_at i others vs e)
  ok-csv_rows i ((name, t) ∷ rows) others out h (suc j) k =
      let (vs, e, g) = bind-ok (columns_at i others) _ h in
      let (more, es, _) = bind-ok (csv_rows (suc i) rows others) _ g in
      All-map (λ r. suc i + j < length r) (λ r. i + suc j < length r) (λ r x. omega arith) others
        (ok-csv_rows (suc i) rows others more es j (omega arith))

  covered :
      (rows : List (Text × T)) (others : List (List (Text × V)))
      → ((j : ℕ) → j < length rows → All (λ r. 0 + j < length r) others)
      → All (λ r. length rows ≤ length r) others
  covered [] others h = All-long others
  covered (row ∷ rows) others h =
      All-map (λ r. 0 + length rows < length r) (λ r. suc (length rows) ≤ length r)
        (λ r x. omega arith) others (h (length rows) (omega arith))

  -- The rows for the file are made without an exception exactly when every other list of results has at
  -- least as many rows as MVVM's, and then each of MVVM's rows goes with the times at its own place.
  pub csv_rows_iff :
      (rows : List (Text × T)) (others : List (List (Text × V)))
      → (((out : List (Text × T × List V)) × (csv_rows 0 rows others ≡ ok out))
          ↔ All (λ r. length rows ≤ length r) others)
        × (All (λ r. length rows ≤ length r) others
            → csv_rows 0 rows others ≡ ok (side_by_side rows others))
  csv_rows_iff rows others =
      let exact : All (λ r. length rows ≤ length r) others
          → csv_rows 0 rows others ≡ ok (side_by_side rows others) =
        λ h.
          csv_rows-ok 0 rows others (
            All-map (λ r. length rows ≤ length r) (λ r. 0 + length rows ≤ length r)
              (λ r k. omega arith) others h)
          ∙ ap (λ x. ok (side_by_side rows x)) (map-drop others) in
      (
        (
          λ h. covered rows others (ok-csv_rows 0 rows others h.0 h.1),
          λ h. (side_by_side rows others, exact h),
        ),
        exact,
      )
