-- ===== src/Wasm/Wat/Gathered.antt =====
-- The numbers that `wat_to_inst` gives to functions.
use anonymous_repo.Prelude.{
  ℕ, ◌+◌, suc, ◌≡◌, refl, sym, ◌∙◌, ap, true, false, ◌||◌, Option, none, some, List, [], ◌∷◌, ◌++◌,
  append_assoc, append-nil, All, map, length, filter_if, pos, sub_ℕ, ok, Bool-cases, inl, inr,
  arith, ◌>>=◌,
}
use anonymous_repo.Text.Str.{Text, codes, text_eq, starts_with, after, find_after, split, is_space}
use anonymous_repo.Text.Words.{IsWord, split-word, split-word_space}
use anonymous_repo.Text.Split.{Lacks, NoSpace-of_all}
use anonymous_repo.Wasm.Stream.{first}
use anonymous_repo.Wasm.Wat.Defs.{
  Names, has_name, register, register_import, register_func, gather, relocate, lookup_func_idx,
}
use anonymous_repo.Wasm.Wat.Emits.{second-split}
use anonymous_repo.Wasm.Wat.Shape.{WatFunc, tail}
use anonymous_repo.Wasm.Wat.Places.{numbered, lookup-numbered, AllNew-later, number-place}
use anonymous_repo.Wasm.Wat.Module.{
  Import, import_line, first_line, is_declaration, import_names, func_names, has, AllNew, number,
  IsModule,
}

has_name-numbered :
    (name : Text) (i : ℕ) (ks : List Text) → has_name name (numbered i ks) ≡ has name ks
unfolding has_name
has_name-numbered name i [] = refl
has_name-numbered name i (k ∷ ks) =
    ap (λ b. text_eq k name || b) (has_name-numbered name (suc i) ks)

length-numbered : (i : ℕ) (ks : List Text) → length (numbered i ks) ≡ length ks
length-numbered i [] = refl
length-numbered i (k ∷ ks) = ap suc (length-numbered (suc i) ks)

numbered-snoc :
    (i : ℕ) (ks : List Text) (k : Text)
    → numbered i (ks ++ k ∷ []) ≡ numbered i ks ++ (k, pos (i + length ks)) ∷ []
numbered-snoc i [] k = ap (λ n. (k, pos n) ∷ []) (omega arith)
numbered-snoc i (j ∷ ks) k =
    ap (λ l. (j, pos i) ∷ l)
      (numbered-snoc (suc i) ks k ∙ ap (λ n. numbered (suc i) ks ++ (k, pos n) ∷ []) (omega arith))

register-numbered :
    (k : Text) (ks : List Text)
    → has k ks ≡ false
    → register k (numbered 0 ks) ≡ ok (numbered 0 (ks ++ k ∷ []))
unfolding register
register-numbered k ks h =
    let e : pos (length ks) ≡ pos (0 + length ks) = ap pos (omega arith) in
    rw (has_name-numbered k 0 ks, h, length-numbered 0 ks, numbered-snoc 0 ks k)
      (ap (λ z. ok (numbered 0 ks ++ (k, z) ∷ [])) e)

find_after-Lacks :
    (q t : Text) → Lacks b'(' q → find_after (codes "(func ") (q ++ (codes "(func " ++ t)) ≡ some t
unfolding find_after starts_with after
find_after-Lacks [] t h = refl
find_after-Lacks (c ∷ q) t (h, hs) =
    let e : starts_with (codes "(func ") (c ∷ (q ++ (codes "(func " ++ t))) ≡ false =
      ground (arith, h) in
    rw e (find_after-Lacks q t hs)

find_after-import :
    (i : Import)
    → Lacks b'(' i.quoted
    → find_after (codes "(func ") (import_line i) ≡ some (i.name ++ tail i.rest)
unfolding find_after starts_with
find_after-import i h = find_after-Lacks i.quoted (i.name ++ tail i.rest) h

first-split : (w : Text) (t : Option Text) → IsWord w → first (split (w ++ tail t)) ≡ ok w
unfolding first
first-split w none h = rw (append-nil w, split-word w h)
first-split w (some t) h = rw (split-word_space w t h)

gather-import :
    (i : Import) (rest : List Text) (ks : List Text) (c : ℕ)
    → Lacks b'(' i.quoted
    → IsWord i.name
    → has i.name ks ≡ false
    → gather (import_line i ∷ rest) (numbered 0 ks, c)
      ≡ gather rest (numbered 0 (ks ++ i.name ∷ []), c + 1)
unfolding gather register_import register_func starts_with
gather-import i rest ks c l w h =
    rw (find_after-import i l, first-split i.name i.rest w, register-numbered i.name ks h) refl

gather-func :
    (f : WatFunc) (rest : List Text) (ks : List Text) (c : ℕ)
    → IsWord f.name
    → has f.name ks ≡ false
    → gather (first_line f ∷ rest) (numbered 0 ks, c)
      ≡ gather rest (numbered 0 (ks ++ f.name ∷ []), c)
unfolding gather register_import register_func starts_with is_space
gather-func f rest ks c w h =
    rw
      (
        second-split (codes "(func") f.name f.rest (NoSpace-of_all (codes "(func") refl) w,
        register-numbered f.name ks h,
      )
      refl

gather-imports :
    (imports : List Import) (rest : List Text) (ks more : List Text) (c : ℕ)
    → All (λ (i : Import). Lacks b'(' i.quoted × IsWord i.name) imports
    → AllNew ks (import_names imports ++ more)
    → gather (map import_line imports ++ rest) (numbered 0 ks, c)
      ≡ gather rest (numbered 0 (ks ++ import_names imports), c + length imports)
gather-imports [] rest ks more c w n =
    rw (append-nil ks) (ap (λ x. gather rest (numbered 0 ks, x)) (omega arith))
gather-imports (i ∷ imports) rest ks more c (w, ws) (n, ns) =
    gather-import i (map import_line imports ++ rest) ks c w.0 w.1 n
    ∙ gather-imports imports rest (ks ++ i.name ∷ []) more (c + 1) ws ns
    ∙ ap (λ x. gather rest (numbered 0 x, c + 1 + length imports))
        (append_assoc ks (i.name ∷ []) (import_names imports))
    ∙ ap (λ x. gather rest (numbered 0 (ks ++ i.name ∷ import_names imports), x)) (omega arith)

gather-funcs :
    (fs : List WatFunc) (ks : List Text) (c : ℕ)
    → All (λ (f : WatFunc). IsWord f.name) fs
    → AllNew ks (func_names fs)
    → gather (map first_line fs) (numbered 0 ks, c) ≡ ok (numbered 0 (ks ++ func_names fs), c)
unfolding gather
gather-funcs [] ks c w n = rw (append-nil ks) refl
gather-funcs (f ∷ fs) ks c (w, ws) (n, ns) =
    gather-func f (map first_line fs) ks c w n
    ∙ gather-funcs fs (ks ++ f.name ∷ []) c ws ns
    ∙ ap (λ x. ok (numbered 0 x, c)) (append_assoc ks (f.name ∷ []) (func_names fs))

-- Only the lines that declare a name count.
gather-filter :
    (lines : List Text) (s : Names × ℕ) → gather (filter_if is_declaration lines) s ≡ gather lines s
unfolding gather register_import register_func
gather-filter [] s = refl
gather-filter (line ∷ lines) (m, c) =
    let rest = gather-filter lines in
    elim (Bool-cases (is_declaration line)) [
      | inl e ↦
          rw e
            (λ i. register_import line (m, c) >>= λ s₁. (register_func line s₁ >>= λ s₂. rest s₂ i))
      | inr e ↦
          let p : starts_with (codes "(import ") line ≡ false = ground (arith, e) in
          let q : starts_with (codes "(func") line ≡ false = ground (arith, e) in
          rw (p, q) (rest (m, c))
    ]

-- For a module whose imports are all functions, have no opening parenthesis in their quoted names
-- and stand before its functions, whose functions have structured bodies without `if`, and whose
-- names are words and different, every call naming one of them, the gathering raises nothing and
-- counts the imports; after that number has been subtracted, the look-up of a name gives the place
-- of the function that bears it among the functions of the module, and for an imported one its
-- place among the imports less their number.
pub gather-number :
    (lines : List Text) (imports : List Import) (fs : List WatFunc)
    → IsModule lines imports fs
    → (m : Names) × (gather lines ([], 0) ≡ ok (m, length imports))
      × ((name : Text)
          → has name (import_names imports ++ func_names fs) ≡ true
          → lookup_func_idx name (relocate (length imports) m) ≡ ok (number imports fs name))
gather-number lines imports fs w =
    let names = import_names imports ++ func_names fs in
    (
      numbered 0 names,
      sym (gather-filter lines ([], 0))
          ∙ ap (λ ls. gather ls ([], 0)) w.declared
          ∙ gather-imports imports (map first_line fs) [] (func_names fs) 0 w.import_words
              w.different
          ∙ ap (λ x. gather (map first_line fs) (numbered 0 (import_names imports), x))
              (omega arith)
          ∙ gather-funcs fs (import_names imports) (length imports) w.func_words
              (AllNew-later [] (import_names imports) (func_names fs) w.different),
      λ name h.
          lookup-numbered name (length imports) 0 names h
          ∙ ap (λ x. ok (sub_ℕ x (length imports))) (omega arith)
          ∙ ap ok (number-place imports fs name w.different h),
    )
