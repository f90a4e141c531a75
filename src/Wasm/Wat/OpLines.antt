-- ===== src/Wasm/Wat/OpLines.antt =====
-- What `wat_to_inst` writes for the line of a single operation stands for it.
use mathlib.Core.Path.{subst}
use anonymous_repo.Prelude.{err, ℕ, ◌≡◌, refl, sym, Option, List, [], ◌∷◌, ◌++◌, false, ℤ, pos, ok}
use anonymous_repo.Text.Str.{Text, codes, starts_with, is_space}
use anonymous_repo.Text.Number.{decimal, show_int}
use anonymous_repo.Text.Words.{IsWord}
use anonymous_repo.Text.Split.{NoSpace-of_all}
use anonymous_repo.Text.Decimal.{
  decimal-IsWord, parse_int-decimal, show_int-IsWord, parse_int-show_int,
}
use anonymous_repo.Wasm.Token.{
  Token, token_text, func_begin, func_end, loop_begin, block_begin, block_end, op_br, op_br_if,
  op_br_table, op_return, op_call, op_call_indirect, op_return_call, op_return_call_indirect,
  op_set, op_tee,
}
use anonymous_repo.Wasm.Syntax.{Op}
use anonymous_repo.Wasm.Stream.{Line}
use anonymous_repo.Wasm.Grammar.{IsOp}
use anonymous_repo.Wasm.Wat.Defs.{Names, State, newline, operand, translate_line, lookup_func_idx}
use anonymous_repo.Wasm.Wat.Shape.{
  WatOp, br, br_if, tee, set, br_table, return, call_indirect, call, tail, op_lines, next_op, op_of,
}
use anonymous_repo.Wasm.Wat.Emits.{Loads, Loads-word, Loads-words, Emits, Emits-line, second-split}

pub token_text-IsWord : (t : Token) → IsWord (token_text t)
unfolding token_text is_space
token_text-IsWord func_begin = NoSpace-of_all (token_text func_begin) refl
token_text-IsWord func_end = NoSpace-of_all (token_text func_end) refl
token_text-IsWord loop_begin = NoSpace-of_all (token_text loop_begin) refl
token_text-IsWord block_begin = NoSpace-of_all (token_text block_begin) refl
token_text-IsWord block_end = NoSpace-of_all (token_text block_end) refl
token_text-IsWord op_br = NoSpace-of_all (token_text op_br) refl
token_text-IsWord op_br_if = NoSpace-of_all (token_text op_br_if) refl
token_text-IsWord op_br_table = NoSpace-of_all (token_text op_br_table) refl
token_text-IsWord op_return = NoSpace-of_all (token_text op_return) refl
token_text-IsWord op_call = NoSpace-of_all (token_text op_call) refl
token_text-IsWord op_call_indirect = NoSpace-of_all (token_text op_call_indirect) refl
token_text-IsWord op_return_call = NoSpace-of_all (token_text op_return_call) refl
token_text-IsWord op_return_call_indirect = NoSpace-of_all (token_text op_return_call_indirect) refl
token_text-IsWord op_set = NoSpace-of_all (token_text op_set) refl
token_text-IsWord op_tee = NoSpace-of_all (token_text op_tee) refl

-- A line of one word, and one with an integer behind it.
pub Loads-token : (t : Token) → Loads (token_text t ++ newline) ((token_text t ∷ []) ∷ [])
Loads-token t = Loads-word (token_text t) (token_text-IsWord t)

pub Loads-number :
    (t : Token) (z : ℤ)
    → Loads (token_text t ++ 32 ∷ (show_int z ++ newline)) ((token_text t ∷ show_int z ∷ []) ∷ [])
Loads-number t z = Loads-words (token_text t) (show_int z) (token_text-IsWord t) (show_int-IsWord z)

pub word-Emits :
    (m : Names) (s s' : State) (l : Text) (t : Token)
    → translate_line m s l ≡ ok (s', token_text t ++ newline)
    → Emits m s (l ∷ []) s' ((token_text t ∷ []) ∷ [])
word-Emits m s s' l t e =
    Emits-line m s s' l (token_text t ++ newline) ((token_text t ∷ []) ∷ []) e (Loads-token t)

pub number-Emits :
    (m : Names) (s s' : State) (l : Text) (t : Token) (z : ℤ)
    → translate_line m s l ≡ ok (s', token_text t ++ 32 ∷ (show_int z ++ newline))
    → Emits m s (l ∷ []) s' ((token_text t ∷ show_int z ∷ []) ∷ [])
number-Emits m s s' l t z e =
    Emits-line m s s' l (token_text t ++ 32 ∷ (show_int z ++ newline))
      ((token_text t ∷ show_int z ∷ []) ∷ []) e (Loads-number t z)

-- The state inside a function, with the next indices of a function and of a loop.
abbrev pub inside : ℕ → ℕ → State
inside i k = record { func_idx = i; loop_idx = k; first_func = false }

operand_lem :
    (head : Text) (d : ℕ) (t : Option Text)
    → IsWord head
    → operand (head ++ 32 ∷ (decimal d ++ tail t)) ≡ ok (pos d)
unfolding operand
operand_lem head d t h =
    simp (second-split head (decimal d) t h (decimal-IsWord d), parse_int-decimal d)

-- The number of a called function; -1 for a name that is not there.
unfoldable pub target : Names → Text → ℤ
target m name = elim (lookup_func_idx name m) [ err e ↦ ℤ.negsuc 0 | ok z ↦ z ]

-- The name is a word, and is known.
abbrev pub IsKnown : Names → Text → Type 0
IsKnown m name = IsWord name × ((z : ℤ) × (lookup_func_idx name m ≡ ok z))

-- One line goes in, and one line of words that stands for the operation comes out.
abbrev pub Writes : Names → ℕ → ℕ → WatOp → Type 0
Writes m i k o =
    (ls : List Line) × Emits m (inside i k) (op_lines o) (inside i (next_op k o)) ls
    × IsOp ls (op_of (target m) k o)

pub br-Writes : (m : Names) (i k d : ℕ) (t : Option Text) → Writes m i k (br d t)
unfolding translate_line starts_with token_text is_space
br-Writes m i k d t = (
  (token_text op_br ∷ show_int (pos d) ∷ []) ∷ [],
  number-Emits m (inside i k) (inside i k) (codes "br " ++ (decimal d ++ tail t)) op_br (pos d)
      (rw (operand_lem (codes "br") d t (NoSpace-of_all (codes "br") refl))),
  IsOp.branch op_br (show_int (pos d) ∷ []) refl,
)

pub br_if-Writes : (m : Names) (i k d : ℕ) (t : Option Text) → Writes m i k (br_if d t)
unfolding translate_line starts_with token_text is_space
br_if-Writes m i k d t = (
  (token_text op_br_if ∷ show_int (pos d) ∷ []) ∷ [],
  number-Emits m (inside i k) (inside i k) (codes "br_if " ++ (decimal d ++ tail t)) op_br_if
      (pos d) (rw (operand_lem (codes "br_if") d t (NoSpace-of_all (codes "br_if") refl))),
  IsOp.branch op_br_if (show_int (pos d) ∷ []) refl,
)

pub tee-Writes : (m : Names) (i k d : ℕ) (t : Option Text) → Writes m i k (tee d t)
unfolding translate_line starts_with token_text is_space
tee-Writes m i k d t = (
  (token_text op_tee ∷ show_int (pos d) ∷ []) ∷ [],
  number-Emits m (inside i k) (inside i k) (codes "local.tee " ++ (decimal d ++ tail t)) op_tee
      (pos d) (rw (operand_lem (codes "local.tee") d t (NoSpace-of_all (codes "local.tee") refl))),
  IsOp.set op_tee (show_int (pos d)) [] (pos d) refl (parse_int-show_int (pos d)),
)

pub set-Writes : (m : Names) (i k d : ℕ) (t : Option Text) → Writes m i k (set d t)
unfolding translate_line starts_with token_text is_space
set-Writes m i k d t = (
  (token_text op_set ∷ show_int (pos d) ∷ []) ∷ [],
  number-Emits m (inside i k) (inside i k) (codes "local.set " ++ (decimal d ++ tail t)) op_set
      (pos d) (rw (operand_lem (codes "local.set") d t (NoSpace-of_all (codes "local.set") refl))),
  IsOp.set op_set (show_int (pos d)) [] (pos d) refl (parse_int-show_int (pos d)),
)

pub br_table-Writes : (m : Names) (i k : ℕ) (t : Text) → Writes m i k (br_table t)
unfolding translate_line starts_with token_text
br_table-Writes m i k t = (
  (token_text op_br_table ∷ []) ∷ [],
  word-Emits m (inside i k) (inside i k) (codes "br_table" ++ t) op_br_table refl,
  IsOp.branch op_br_table [] refl,
)

pub return-Writes : (m : Names) (i k : ℕ) (t : Text) → Writes m i k (return t)
unfolding translate_line starts_with token_text
return-Writes m i k t = (
  (token_text op_return ∷ []) ∷ [],
  word-Emits m (inside i k) (inside i k) (codes "return" ++ t) op_return refl,
  IsOp.branch op_return [] refl,
)

pub call_indirect-Writes : (m : Names) (i k : ℕ) (t : Text) → Writes m i k (call_indirect t)
unfolding translate_line starts_with token_text
call_indirect-Writes m i k t = (
  (token_text op_call_indirect ∷ []) ∷ [],
  word-Emits m (inside i k) (inside i k) (codes "call_indirect" ++ t) op_call_indirect refl,
  IsOp.call_indirect [],
)

pub target_known :
    (m : Names) (name : Text) (z : ℤ) → lookup_func_idx name m ≡ ok z → target m name ≡ z
unfolding target
target_known m name z e = rw (e, target)

pub call-Writes :
    (m : Names) (i k : ℕ) (name : Text) (t : Option Text)
    → IsKnown m name
    → Writes m i k (call name t)
unfolding translate_line starts_with token_text is_space
call-Writes m i k name t (h, (z, e)) = (
  (token_text op_call ∷ show_int z ∷ []) ∷ [],
  number-Emits m (inside i k) (inside i k) (codes "call " ++ (name ++ tail t)) op_call z
      (rw (second-split (codes "call") name t (NoSpace-of_all (codes "call") refl) h, e)),
  subst (λ v. IsOp ((token_text op_call ∷ show_int z ∷ []) ∷ []) (Op.call v))
      (sym (target_known m name z e)) (IsOp.call (show_int z) [] z (parse_int-show_int z)),
)
