-- ===== src/Wasm/Main/Defs.antt =====
-- The `__main__` part of wasm_static_analysis.py.
use anonymous_repo.Prelude.{
  suc, ◌==◌, Bool, List, [], ◌∷◌, ◌++◌, map, length, ℤ, Result, ok, ◌>>=◌, ◌>>◌, assert,
}
use anonymous_repo.Text.Str.{Text, codes}
use anonymous_repo.Text.Edit.{replace, ends_with, join}
use anonymous_repo.Text.Number.{decimal, show_int}
use anonymous_repo.Wasm.Stream.{open_stream}
use anonymous_repo.Wasm.Syntax.{Program}
use anonymous_repo.Wasm.Parser.{parse_program}
use anonymous_repo.Wasm.Wat.Defs.{newline, wat_to_inst}
use anonymous_repo.Wasm.SimpleFunc.Pass.{simple_func_pass}
use anonymous_repo.Wasm.ModifiedLocals.Pass.{Entry, modified_locals_pass}
use anonymous_repo.Wasm.LoopCkpt.Pass.{Skip, loop_ckpt_pass}

-- What the three passes give, on one program one after the other. A round of the loop of
-- `SimpleFuncPass` is allowed for each function, and two more.
unfoldable pub analyse : Program → Result (List ℤ × List Entry × List Skip)
analyse program = do
  (program₁, simple_func) ← simple_func_pass (suc (suc (length program))) program
  (program₂, modified_locals) ← modified_locals_pass program₁
  (program₃, skip_ckpt) ← loop_ckpt_pass program₂ simple_func
  ok (simple_func, modified_locals, skip_ckpt)

-- The lines of a file, each behind the others.
unfoldable pub write_lines : List Text → Text
write_lines [] = []
write_lines (l ∷ ls) = l ++ newline ++ write_lines ls

-- A number of lines, and the lines.
unfoldable pub counted : List Text → List Text
counted ls = decimal (length ls) ∷ ls

unfoldable pub simple_func_lines : List ℤ → List Text
unfolding counted
simple_func_lines simple_func = counted (map show_int simple_func)

-- `f"{func_idx} {loop_idx} {len(locals)} {' '.join(...)}"`
unfoldable pub entry_line : (List ℤ → List ℤ) → Entry → Text
unfolding join
entry_line order e =
    show_int e.func_idx
    ++ codes " "
    ++ show_int e.loop_idx
    ++ codes " "
    ++ decimal (length e.locals)
    ++ codes " "
    ++ join (codes " ") (map show_int (order e.locals))

unfoldable pub modified_locals_lines : (List ℤ → List ℤ) → List Entry → List Text
unfolding counted entry_line
modified_locals_lines order modified_locals = counted (map (entry_line order) modified_locals)

unfoldable pub skip_line : Skip → Text
skip_line (func_idx, loop_idx) = show_int func_idx ++ codes " " ++ show_int loop_idx

unfoldable pub skip_ckpt_lines : List Skip → List Text
unfolding counted skip_line
skip_ckpt_lines skip_ckpt = counted (map skip_line skip_ckpt)

-- What a run leaves: the command that makes the text form, and the files by name.
pub record Outcome : Type 0 where
  pub command : Text
  pub inst : Text × Text
  pub simple_func_opt : Text × Text
  pub modified_locals_opt : Text × Text
  pub skip_ckpt_opt : Text × Text

-- `wasm2wat --enable-all '{wasm_file}' -o '{wat_file}'`
unfoldable pub wasm2wat_command : Text → Text
unfolding replace
wasm2wat_command wasm_file =
    codes "wasm2wat --enable-all '"
    ++ wasm_file
    ++ codes "' -o '"
    ++ replace (codes ".wasm") (codes ".wat") wasm_file
    ++ codes "'"

unfoldable pub outcome : (List ℤ → List ℤ) → Text → Text → List ℤ → List Entry → List Skip → Outcome
unfolding wasm2wat_command simple_func_lines modified_locals_lines skip_ckpt_lines write_lines
outcome order wasm_file contents simple_func modified_locals skip_ckpt = record {
  command = wasm2wat_command wasm_file;
  inst = (wasm_file ++ codes ".inst", contents);
  simple_func_opt =
      (wasm_file ++ codes ".simple_func.opt", write_lines (simple_func_lines simple_func));
  modified_locals_opt = (
    wasm_file ++ codes ".modified_locals.opt",
    write_lines (modified_locals_lines order modified_locals),
  );
  skip_ckpt_opt = (wasm_file ++ codes ".skip_ckpt.opt", write_lines (skip_ckpt_lines skip_ckpt));
}

module _ (exists : Text → Bool) (wat_lines : Text → List Text) (order : List ℤ → List ℤ) where
  unfoldable pub main_file : Text → Result Outcome
  unfolding outcome
  main_file wasm_file = do
    assert (ends_with (codes ".wasm") wasm_file)
    assert (exists wasm_file)
    contents ← wat_to_inst (wat_lines wasm_file)
    (program, stream) ← parse_program (open_stream contents)
    (simple_func, modified_locals, skip_ckpt) ← analyse program
    ok (outcome order wasm_file contents simple_func modified_locals skip_ckpt)

  -- `sys.argv`
  unfoldable pub main : List Text → Result Outcome
  unfolding main_file
  main (script ∷ wasm_file ∷ []) = main_file wasm_file
  main argv = do assert (length argv == 2); main_file []
