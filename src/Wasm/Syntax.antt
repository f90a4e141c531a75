-- ===== src/Wasm/Syntax.antt =====
-- The tree of the classes WasmBranch, WasmCall, WasmSet, WasmLoop, WasmBlock and WasmFunction.
-- `Op` and `Body` are the tree without the `data` that the passes write into it.
use anonymous_repo.Prelude.{◌≡◌, refl, ap, Bool, Option, none, List, [], ◌∷◌, ℤ}

pub record Ckpt : Type 0 where
  pub noinf : Bool
  pub ckpt : Bool

-- The dictionary `data` of a node: one key for each pass, missing at first.
pub record Data : Type 0 where
  pub simple_func : Option Bool
  pub modified_locals : Option (List ℤ)
  pub loop_ckpt : Option Ckpt

abbrev pub fresh : Data
fresh = record { simple_func = none; modified_locals = none; loop_ckpt = none }

mutual
  pub data Inst : Type 0 where
    branch : Data → Inst
    call : Data → ℤ → Inst
    set : Data → ℤ → Inst
    loop : Data → ℤ → Insts → Inst
    block : Data → Insts → Inst

  pub data Insts : Type 0 where
    end : Insts
    cons : Inst → Insts → Insts

pub record Function : Type 0 where
  pub info : Data
  pub func_idx : ℤ
  pub block : Inst

abbrev pub Program : Type 0
Program = List Function

-- `inst.data`
unfoldable pub data_of : Inst → Data
data_of (branch d) = d
data_of (call d z) = d
data_of (set d z) = d
data_of (loop d k is) = d
data_of (Inst.block d is) = d

mutual
  pub data Op : Type 0 where
    branch : Op
    call : ℤ → Op
    set : ℤ → Op
    loop : ℤ → Body → Op
    block : Body → Op

  pub data Body : Type 0 where
    end : Body
    cons : Op → Body → Body

unfoldable mutual
  pub code : Inst → Op
  code (branch d) = Op.branch
  code (call d z) = Op.call z
  code (set d z) = Op.set z
  code (loop d k is) = Op.loop k (codes_of is)
  code (Inst.block d is) = Op.block (codes_of is)

  pub codes_of : Insts → Body
  codes_of Insts.end = Body.end
  codes_of (Insts.cons i is) = Body.cons (code i) (codes_of is)

-- The tree as the parser builds it.
unfoldable mutual
  pub plain : Op → Inst
  plain Op.branch = branch fresh
  plain (Op.call z) = call fresh z
  plain (Op.set z) = set fresh z
  plain (Op.loop k b) = loop fresh k (plain_insts b)
  plain (Op.block b) = Inst.block fresh (plain_insts b)

  pub plain_insts : Body → Insts
  plain_insts Body.end = Insts.end
  plain_insts (Body.cons o b) = Insts.cons (plain o) (plain_insts b)

-- `P` of the data of a node and of all below it.
abbrev mutual
  pub AllData : (Data → Type 0) → Inst → Type 0
  AllData P (branch d) = P d
  AllData P (call d z) = P d
  AllData P (set d z) = P d
  AllData P (loop d k is) = P d × AllInsts P is
  AllData P (Inst.block d is) = P d × AllInsts P is

  pub AllInsts : (Data → Type 0) → Insts → Type 0
  AllInsts P Insts.end = Unit
  AllInsts P (Insts.cons i is) = AllData P i × AllInsts P is

abbrev pub AllFuncs : (Data → Type 0) → Program → Type 0
AllFuncs P [] = Unit
AllFuncs P (g ∷ p) = P g.info × AllData P g.block × AllFuncs P p

mutual
  unfolding code plain

  code-plain_aux : (o : Op) → code (plain o) ≡ o
  code-plain_aux Op.branch = refl
  code-plain_aux (Op.call z) = refl
  code-plain_aux (Op.set z) = refl
  code-plain_aux (Op.loop k b) = ap (Op.loop k) (codes_of-plain_insts b)
  code-plain_aux (Op.block b) = ap Op.block (codes_of-plain_insts b)

  codes_of-plain_insts : (b : Body) → codes_of (plain_insts b) ≡ b
  codes_of-plain_insts Body.end = refl
  codes_of-plain_insts (Body.cons o b) = cc (code-plain_aux o, codes_of-plain_insts b)

pub code-plain : (o : Op) → code (plain o) ≡ o
code-plain o = code-plain_aux o

mutual
  unfolding plain

  plain-AllData_aux : (P : Data → Type 0) → P fresh → (o : Op) → AllData P (plain o)
  plain-AllData_aux P h Op.branch = h
  plain-AllData_aux P h (Op.call z) = h
  plain-AllData_aux P h (Op.set z) = h
  plain-AllData_aux P h (Op.loop k b) = (h, plain_insts-AllInsts P h b)
  plain-AllData_aux P h (Op.block b) = (h, plain_insts-AllInsts P h b)

  plain_insts-AllInsts : (P : Data → Type 0) → P fresh → (b : Body) → AllInsts P (plain_insts b)
  plain_insts-AllInsts P h Body.end = tt
  plain_insts-AllInsts P h (Body.cons o b) = (plain-AllData_aux P h o, plain_insts-AllInsts P h b)

pub plain-AllData : (P : Data → Type 0) → P fresh → (o : Op) → AllData P (plain o)
plain-AllData P h o = plain-AllData_aux P h o
