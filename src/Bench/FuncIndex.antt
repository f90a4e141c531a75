-- ===== src/Bench/FuncIndex.antt =====
-- artifact/common_util.py: `get_func_index`, and artifact/get_func_name.py: `get_func_name`, from
-- what `wasm2wat --enable-all FILE | grep func` has written.
use anonymous_repo.Prelude.{
  get_elem?-append_here, refl, arith, ◌∙◌, ap, inr, Bool-cases, inl, ◌+◌, true, ◌++◌, ◌⊎◌, false,
  All, ◌≡◌, ℕ, suc, Bool, ◌&&◌, not, Option, none, some, List, [], ◌∷◌, length, filter_if,
  get_elem?, Result, ok, ◌>>=◌, or_raise, index_error, if◌then◌else◌, ℤ, pos, sub_ℕ,
}
use anonymous_repo.Text.Str.{Text, codes, split_on}
use anonymous_repo.Text.Edit.{is_in}

-- The condition of the comprehension `output1`.
unfoldable pub is_func_line : Text → Bool
unfolding is_in
is_func_line x =
    not (is_in (codes "(type (;") x)
    && not (is_in (codes "(table (;") x)
    && not (is_in (codes "global.get") x)

-- `for i in range(len(output1))`: the first line that holds the name; `none` is Python's None.
unfoldable pub index_from : Text → ℕ → List Text → Option ℕ
unfolding is_in
index_from func i [] = none
index_from func i (x ∷ output1) =
    let later = index_from func (suc i) output1 in if is_in func x then some i else later

unfoldable pub get_func_index : Text → Text → Option ℕ
unfolding index_from
get_func_index func output = index_from func 0 (filter_if is_func_line (split_on 10 output))

-- `import_count`
unfoldable pub import_count : List Text → ℕ
unfolding is_in
import_count output = length (filter_if (λ x. is_in (codes "(import ") x) output)

-- `output1[i].split(" ")[3], i - import_count`
unfoldable pub name_at : ℕ → ℕ → Option Text → Result (Option (Text × ℤ))
name_at i imports none = ok none
name_at i imports (some x) = do
  name ← or_raise index_error (get_elem? (split_on 32 x) 3)
  ok (some (name, sub_ℕ i imports))

-- The word of the line at an index, and the index without the imports; `none` is Python's None,
-- for an index that no line has.
unfoldable pub get_func_name : ℤ → Text → Result (Option (Text × ℤ))
unfolding name_at
get_func_name (ℤ.negsuc n) output = ok none
get_func_name (pos func) output =
    name_at func (import_count (split_on 10 output))
      (get_elem? (filter_if is_func_line (split_on 10 output)) func)

index_from_lem :
    (func : Text) (i : ℕ) (lines : List Text)
    → ((index_from func i lines ≡ none) × All (λ x. is_in func x ≡ false) lines)
      ⊎ ((before : List Text) × (x : Text) × (after : List Text) × (lines ≡ before ++ x ∷ after)
          × All (λ y. is_in func y ≡ false) before
          × (is_in func x ≡ true)
          × (index_from func i lines ≡ some (i + length before)))
unfolding index_from
index_from_lem func i [] = inl (refl, tt)
index_from_lem func i (x ∷ lines) = elim (Bool-cases (is_in func x)) [
  | inl e ↦ inr ([], x, lines, refl, tt, e, rw e (ap some (omega arith)))
  | inr e ↦ elim (index_from_lem func (suc i) lines) [
    | inl (p, q) ↦ inl (rw (e, p), (e, q))
    | inr (before, y, after, p, q, r, t) ↦
        inr (x ∷ before, y, after, ap (λ l. x ∷ l) p, (e, q), r, rw (e, t) (ap some (omega arith)))
  ]
]

-- The lines of the listing that both scripts count.
abbrev pub func_lines : Text → List Text
func_lines output = filter_if is_func_line (split_on 10 output)

-- `get_func_index` returns None exactly when no counted line holds the name. Otherwise it returns
-- the index of the first line that does, and `get_func_name` at that index reads that line: it gives
-- the fourth of its fields between spaces and the index less the number of imports, or raises
-- IndexError if there are fewer fields.
pub get_func_index_lem :
    (func output : Text)
    → ((get_func_index func output ≡ none) × All (λ x. is_in func x ≡ false) (func_lines output))
      ⊎ ((before : List Text) × (x : Text) × (after : List Text) × (func_lines output
            ≡ before ++ x ∷ after)
          × All (λ y. is_in func y ≡ false) before
          × (is_in func x ≡ true)
          × (get_func_index func output ≡ some (length before))
          × (get_func_name (pos (length before)) output ≡ (
              or_raise index_error (get_elem? (split_on 32 x) 3) >>= λ name.
              ok (some (name, sub_ℕ (length before) (import_count (split_on 10 output)))))))
unfolding get_func_index get_func_name
get_func_index_lem func output = elim (index_from_lem func 0 (func_lines output)) [
  | inl p ↦ inl p
  | inr (before, x, after, p, q, r, t) ↦ inr (
    before,
    x,
    after,
    p,
    q,
    r,
    t ∙ ap some (omega arith),
    rw (p, get_elem?-append_here before x after),
  )
]
