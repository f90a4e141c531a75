-- ===== src/Wasm/Wat/Shape.antt =====
-- The critical lines of a module as wasm2wat prints it, and the tree that they stand for. A line is
-- as `clean` leaves it. Behind an operand there is nothing, or a space and any text.
use anonymous_repo.Prelude.{ℕ, ◌+◌, ◌≡◌, refl, ap, Option, none, some, List, [], ◌∷◌, ◌++◌, ℤ, pos}
use anonymous_repo.Text.Str.{Text, codes}
use anonymous_repo.Text.Number.{decimal}
use anonymous_repo.Wasm.Syntax.{Op, Body, Program, plain, fresh}

abbrev pub tail : Option Text → Text
tail none = []
tail (some t) = 32 ∷ t

mutual
  pub data WatOp : Type 0 where
    br br_if tee set : ℕ → Option Text → WatOp
    -- `return` and what follows in the line, as in `return_call`.
    br_table return call_indirect : Text → WatOp
    call : Text → Option Text → WatOp
    -- The rest of the first line, the body, the rest of the line of `end`.
    block loop : Text → WatBody → Text → WatOp

  pub data WatBody : Type 0 where
    end : WatBody
    cons : WatOp → WatBody → WatBody

pub record WatFunc : Type 0 where
  pub name : Text
  -- What follows the name in the first line.
  pub rest : Option Text
  pub body : WatBody

-- What follows "(func" in the first line.
abbrev pub header : WatFunc → Text
header f = 32 ∷ (f.name ++ tail f.rest)

abbrev mutual
  pub op_lines : WatOp → List Text
  op_lines (br d t) = (codes "br " ++ (decimal d ++ tail t)) ∷ []
  op_lines (br_if d t) = (codes "br_if " ++ (decimal d ++ tail t)) ∷ []
  op_lines (tee d t) = (codes "local.tee " ++ (decimal d ++ tail t)) ∷ []
  op_lines (set d t) = (codes "local.set " ++ (decimal d ++ tail t)) ∷ []
  op_lines (br_table t) = (codes "br_table" ++ t) ∷ []
  op_lines (return t) = (codes "return" ++ t) ∷ []
  op_lines (call_indirect t) = (codes "call_indirect" ++ t) ∷ []
  op_lines (call name t) = (codes "call " ++ (name ++ tail t)) ∷ []
  op_lines (block t b u) = (codes "block" ++ t) ∷ (body_lines b ++ (codes "end" ++ u) ∷ [])
  op_lines (loop t b u) = (codes "loop" ++ t) ∷ (body_lines b ++ (codes "end" ++ u) ∷ [])

  pub body_lines : WatBody → List Text
  body_lines end = []
  body_lines (cons o b) = op_lines o ++ body_lines b

abbrev pub func_lines : List WatFunc → List Text
func_lines [] = []
func_lines (f ∷ fs) = (codes "(func" ++ header f) ∷ (body_lines f.body ++ func_lines fs)

-- The index that follows those of the loops, which are numbered in the order of their first lines.
abbrev mutual
  pub next_op : ℕ → WatOp → ℕ
  next_op k (block t b u) = next_body k b
  next_op k (loop t b u) = next_body (k + 1) b
  next_op k _ = k

  pub next_body : ℕ → WatBody → ℕ
  next_body k end = k
  next_body k (cons o b) = next_body (next_op k o) b

-- The tree, with loops numbered from an index on, and with the number `n name` for a called
-- function.
abbrev mutual
  pub op_of : (Text → ℤ) → ℕ → WatOp → Op
  op_of n k (br d t) = Op.branch
  op_of n k (br_if d t) = Op.branch
  op_of n k (br_table t) = Op.branch
  op_of n k (return t) = Op.branch
  op_of n k (tee d t) = Op.set (pos d)
  op_of n k (set d t) = Op.set (pos d)
  op_of n k (call_indirect t) = Op.call (ℤ.negsuc 0)
  op_of n k (call name t) = Op.call (n name)
  op_of n k (block t b u) = Op.block (body_of n k b)
  op_of n k (loop t b u) = Op.loop (pos k) (body_of n (k + 1) b)

  pub body_of : (Text → ℤ) → ℕ → WatBody → Body
  body_of n k end = Body.end
  body_of n k (cons o b) = Body.cons (op_of n k o) (body_of n (next_op k o) b)

-- The functions, numbered from an index on.
abbrev pub program_of : (Text → ℤ) → ℕ → List WatFunc → Program
program_of n i [] = []
program_of n i (f ∷ fs) =
    record { info = fresh; func_idx = pos i; block = plain (Op.block (body_of n 0 f.body)) }
    ∷ program_of n (i + 1) fs

-- `P` of the name in every call.
abbrev mutual
  pub OpCalls : (Text → Type 0) → WatOp → Type 0
  OpCalls P (call name t) = P name
  OpCalls P (block t b u) = BodyCalls P b
  OpCalls P (loop t b u) = BodyCalls P b
  OpCalls P _ = Unit

  pub BodyCalls : (Text → Type 0) → WatBody → Type 0
  BodyCalls P end = Unit
  BodyCalls P (cons o b) = OpCalls P o × BodyCalls P b

abbrev pub AllCalls : (Text → Type 0) → List WatFunc → Type 0
AllCalls P [] = Unit
AllCalls P (f ∷ fs) = BodyCalls P f.body × AllCalls P fs

-- The tree depends on the numbers of the called functions only.
mutual
  op_of-same :
      (n n' : Text → ℤ) (k : ℕ) (o : WatOp)
      → OpCalls (λ name. n name ≡ n' name) o
      → op_of n k o ≡ op_of n' k o
  op_of-same n n' k (br d t) h = refl
  op_of-same n n' k (br_if d t) h = refl
  op_of-same n n' k (br_table t) h = refl
  op_of-same n n' k (return t) h = refl
  op_of-same n n' k (tee d t) h = refl
  op_of-same n n' k (set d t) h = refl
  op_of-same n n' k (call_indirect t) h = refl
  op_of-same n n' k (call name t) h = ap Op.call h
  op_of-same n n' k (block t b u) h = ap Op.block (body_of-same n n' k b h)
  op_of-same n n' k (loop t b u) h = ap (Op.loop (pos k)) (body_of-same n n' (k + 1) b h)

  body_of-same :
      (n n' : Text → ℤ) (k : ℕ) (b : WatBody)
      → BodyCalls (λ name. n name ≡ n' name) b
      → body_of n k b ≡ body_of n' k b
  body_of-same n n' k end h = refl
  body_of-same n n' k (cons o b) (h, h') =
      let p = op_of-same n n' k o h in
      let q = body_of-same n n' (next_op k o) b h' in λ i. Body.cons (p i) (q i)

pub program_of-same :
    (n n' : Text → ℤ) (i : ℕ) (fs : List WatFunc)
    → AllCalls (λ name. n name ≡ n' name) fs
    → program_of n i fs ≡ program_of n' i fs
program_of-same n n' i [] h = refl
program_of-same n n' i (f ∷ fs) (h, h') =
    let p = body_of-same n n' 0 f.body h in
    let q = program_of-same n n' (i + 1) fs h' in
    λ j. (record { info = fresh; func_idx = pos i; block = plain (Op.block (p j)) }) ∷ q j

mutual
  OpCalls-map :
      (P Q : Text → Type 0)
      → ((name : Text) → P name → Q name)
      → (o : WatOp) → OpCalls P o
      → OpCalls Q o
  OpCalls-map P Q g (br d t) h = tt
  OpCalls-map P Q g (br_if d t) h = tt
  OpCalls-map P Q g (br_table t) h = tt
  OpCalls-map P Q g (return t) h = tt
  OpCalls-map P Q g (tee d t) h = tt
  OpCalls-map P Q g (set d t) h = tt
  OpCalls-map P Q g (call_indirect t) h = tt
  OpCalls-map P Q g (call name t) h = g name h
  OpCalls-map P Q g (block t b u) h = BodyCalls-map P Q g b h
  OpCalls-map P Q g (loop t b u) h = BodyCalls-map P Q g b h

  BodyCalls-map :
      (P Q : Text → Type 0)
      → ((name : Text) → P name → Q name)
      → (b : WatBody) → BodyCalls P b
      → BodyCalls Q b
  BodyCalls-map P Q g end h = tt
  BodyCalls-map P Q g (cons o b) (h, h') = (OpCalls-map P Q g o h, BodyCalls-map P Q g b h')

pub AllCalls-map :
    (P Q : Text → Type 0)
    → ((name : Text) → P name → Q name)
    → (fs : List WatFunc) → AllCalls P fs
    → AllCalls Q fs
AllCalls-map P Q g [] h = tt
AllCalls-map P Q g (f ∷ fs) (h, h') = (BodyCalls-map P Q g f.body h, AllCalls-map P Q g fs h')
