-- ===== src/Wasm/Wat/Module.antt =====
-- A module as wasm2wat prints it, for `wat_to_inst`: its imports and its functions with their names.
-- The lines are as `clean` leaves them.
use anonymous_repo.Prelude.{
  ℕ, suc, ◌≡◌, Bool, true, false, ◌||◌, Option, List, [], ◌∷◌, ◌++◌, All, map, length, filter_if,
  if◌then◌else◌, ℤ, pos, sub_ℕ,
}
use anonymous_repo.Text.Str.{Text, codes, text_eq, starts_with}
use anonymous_repo.Text.Words.{IsWord}
use anonymous_repo.Text.Split.{Lacks}
use anonymous_repo.Wasm.Wat.Defs.{critical_line}
use anonymous_repo.Wasm.Wat.Shape.{WatFunc, tail, header, func_lines, AllCalls}

-- An imported function: the two quoted names, its own name, and what follows it.
pub record Import : Type 0 where
  pub quoted : Text
  pub name : Text
  pub rest : Option Text

abbrev pub import_line : Import → Text
import_line i = codes "(import " ++ (i.quoted ++ (codes "(func " ++ (i.name ++ tail i.rest)))

abbrev pub first_line : WatFunc → Text
first_line f = codes "(func" ++ header f

-- The lines in which `wat_to_inst` looks for names.
abbrev pub is_declaration : Text → Bool
is_declaration line = starts_with (codes "(import ") line || starts_with (codes "(func") line

abbrev pub import_names : List Import → List Text
import_names imports = map (λ (i : Import). i.name) imports

abbrev pub func_names : List WatFunc → List Text
func_names fs = map (λ (f : WatFunc). f.name) fs

abbrev pub has : Text → List Text → Bool
has name [] = false
has name (k ∷ ks) = text_eq k name || has name ks

-- The place of the first such name, counted from 0.
abbrev pub place : Text → List Text → ℕ
place name [] = 0
place name (k ∷ ks) = if text_eq k name then 0 else suc (place name ks)

-- No name stands before itself.
abbrev pub AllNew : List Text → List Text → Type 0
AllNew before [] = Unit
AllNew before (k ∷ ks) = (has k before ≡ false) × AllNew (before ++ k ∷ []) ks

-- The number of the function that bears a name: its place among the functions of the module, and for
-- an imported one its place among the imports less their number, which is negative.
abbrev pub number : List Import → List WatFunc → Text → ℤ
number imports fs name =
    if has name (func_names fs)
    then pos (place name (func_names fs))
    else sub_ℕ (place name (import_names imports)) (length imports)

-- The lines of a module: all of its imports are functions, have no opening parenthesis in their quoted
-- names and stand before its functions; the bodies of these are structured and have no `if`; names are
-- words and different, and a call names one of them.
pub record IsModule (lines : List Text) (imports : List Import) (fs : List WatFunc) : Type 0 where
  pub critical : filter_if critical_line lines ≡ func_lines fs
  pub declared : filter_if is_declaration lines ≡ map import_line imports ++ map first_line fs
  pub import_words : All (λ (i : Import). Lacks b'(' i.quoted × IsWord i.name) imports
  pub func_words : All (λ (f : WatFunc). IsWord f.name) fs
  pub different : AllNew [] (import_names imports ++ func_names fs)
  pub calls : AllCalls (λ name. has name (import_names imports ++ func_names fs) ≡ true) fs
