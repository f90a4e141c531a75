-- ===== src/Metadata/Defs.antt =====
-- src/create_mvvm_metadata.py, from the lines that llvm-dwarfdump has written to the file for the
-- runtime.
use anonymous_repo.Prelude.{
  ◌&&◌, List, [], ◌∷◌, ◌++◌, length, ◌==◌, if◌then◌else◌, Result, ok, ◌>>◌, assert,
}
use anonymous_repo.Text.Str.{Text, codes, split, text_eq}
use anonymous_repo.Text.Edit.{is_in}
use anonymous_repo.Text.Number.{decimal}

abbrev pub newline : Text
newline = 10 ∷ []

-- `if len(eles) >= 5 and ...: offsets.append(eles[0])`, from the words of the line.
unfoldable pub nop_offset : Text → List Text → List Text
unfolding text_eq is_in
nop_offset line (addr ∷ e1 ∷ e2 ∷ e3 ∷ e4 ∷ rest) =
    if text_eq e2 (codes "514") && is_in (codes "is_stmt") line then addr ∷ [] else []
nop_offset line _ = []

unfoldable pub get_nop_offsets : List Text → List Text
unfolding nop_offset split
get_nop_offsets [] = []
get_nop_offsets (line ∷ lines) = nop_offset line (split line) ++ get_nop_offsets lines

-- `for e in nop_offsets: f.write(f"{e} ")`
unfoldable pub offsets_text : List Text → Text
offsets_text [] = []
offsets_text (e ∷ offsets) = e ++ 32 ∷ offsets_text offsets

-- What is written.
unfoldable pub metadata : List Text → Text
unfolding offsets_text decimal
metadata nop_offsets =
    codes "x86_64"
    ++ 10
      ∷ (codes "nop"
          ++ 10 ∷ (decimal (length nop_offsets) ++ 10 ∷ (offsets_text nop_offsets ++ 10 ∷ [])))

-- The command, and the name and the contents of the file.
pub record Outcome : Type 0 where
  pub command : Text
  pub file : Text × Text

-- `__main__`; `dwarf_lines` gives the lines of the file that the command has written.
unfoldable pub main : (Text → List Text) → List Text → Result Outcome
unfolding get_nop_offsets metadata
main dwarf_lines (script ∷ aot_name ∷ []) = ok (record {
  command =
      codes "llvm-dwarfdump -a " ++ (aot_name ++ (codes ".o > " ++ (aot_name ++ codes ".o.dwarf")));
  file = (
    aot_name ++ codes ".mvvm",
    metadata (get_nop_offsets (dwarf_lines (aot_name ++ codes ".o.dwarf"))),
  );
})
main dwarf_lines argv = do assert (length argv == 2); ok (record { command = []; file = ([], []) })
