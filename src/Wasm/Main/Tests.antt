-- ===== src/Wasm/Main/Tests.antt =====
-- `wat_to_inst` and the whole run, at the text form of a module.
use anonymous_repo.Prelude.{
  any, Error, err, length, ◌++◌, ◌≡◌, refl, true, none, some, [], ◌∷◌, map, List, ok,
}
use anonymous_repo.Text.Str.{
  find_after, Text, codes, starts_with, strip, strip_where, drop_while, is_space, text_eq,
}
use anonymous_repo.Text.Number.{decimal}
use anonymous_repo.Wasm.Stream.{open_stream, stream_at, load_insts}
use anonymous_repo.Wasm.Parser.{parse_program}
use anonymous_repo.Wasm.Wat.Defs.{
  Names, clean, critical_line, gather, relocate, lookup_func_idx, wat_to_inst,
}
use anonymous_repo.Wasm.Wat.Shape.{WatOp, WatBody, WatFunc, program_of}
use anonymous_repo.Text.Split.{NoSpace-of_all}
use anonymous_repo.Wasm.Wat.Module.{Import, IsModule, number, has, import_names, func_names}
use anonymous_repo.Wasm.Wat.BareImport.{is_bare_import, wat_to_inst-bare_import}
use anonymous_repo.Wasm.Wat.Gathered.{gather-number}
use anonymous_repo.Wasm.Wat.RoundTrip.{wat_to_inst-parse_program}

abbrev module_lines : List Text
module_lines =
    codes "(module\n"
    ∷ codes "  (import \"env\" \"print\" (func $print (type 0)))\n"
    ∷ codes "  (func $leaf (type 0)\n"
    ∷ codes "    i32.const 1\n"
    ∷ codes "    local.set 3)\n"
    ∷ codes "  (func $main (type 0)\n"
    ∷ codes "    loop  ;; label = @1\n"
    ∷ codes "      call $leaf\n"
    ∷ codes "      br_if 0 (;@1;)\n"
    ∷ codes "    end))\n"
    ∷ []

abbrev module_imports : List Import
module_imports =
    (record {
      quoted = codes "\"env\" \"print\" ";
      name = codes "$print";
      rest = some (codes "(type 0");
    })
    ∷ []

abbrev module_funcs : List WatFunc
module_funcs =
    (record {
      name = codes "$leaf";
      rest = some (codes "(type 0");
      body = WatBody.cons (WatOp.set 3 none) WatBody.end;
    })
    ∷ (record {
      name = codes "$main";
      rest = some (codes "(type 0");
      body =
          WatBody.cons
            (WatOp.loop (codes "  ;; label = @1")
              (WatBody.cons (WatOp.call (codes "$leaf") none)
                (WatBody.cons (WatOp.br_if 0 (some (codes "(;@1;"))) WatBody.end))
              [])
            WatBody.end;
    })
    ∷ []

module_lines-IsModule : IsModule (map clean module_lines) module_imports module_funcs
unfolding clean critical_line starts_with strip strip_where drop_while is_space decimal text_eq
module_lines-IsModule = record {
  critical = refl;
  declared = refl;
  import_words = (
    (
      (
        refl,
        (
          refl,
          (
            refl,
            (
              refl,
              (refl, (refl, (refl, (refl, (refl, (refl, (refl, (refl, (refl, (refl, tt)))))))))),
            ),
          ),
        ),
      ),
      NoSpace-of_all (codes "$print") refl,
    ),
    tt,
  );
  func_words = (NoSpace-of_all (codes "$leaf") refl, (NoSpace-of_all (codes "$main") refl, tt));
  different = (refl, (refl, (refl, tt)));
  calls = ((tt, tt), (((refl, (tt, tt)), tt), tt));
}

-- A call of $leaf stands in the tree as a call of the function 0.
wat_to_inst-parse_program_example :
    (contents : Text) × (wat_to_inst module_lines ≡ ok contents)
    × (parse_program (open_stream contents)
        ≡ ok (
          program_of (number module_imports module_funcs) 0 module_funcs,
          stream_at (load_insts contents) [],
        ))
wat_to_inst-parse_program_example =
    wat_to_inst-parse_program module_lines module_imports module_funcs module_lines-IsModule

gather-number_example :
    (m : Names) × (gather (map clean module_lines) ([], 0) ≡ ok (m, length module_imports))
    × ((name : Text)
        → has name (import_names module_imports ++ func_names module_funcs) ≡ true
        → lookup_func_idx name (relocate (length module_imports) m)
          ≡ ok (number module_imports module_funcs name))
gather-number_example =
    gather-number (map clean module_lines) module_imports module_funcs module_lines-IsModule

-- A module with an imported memory.
abbrev memory_lines : List Text
memory_lines =
    codes "(module\n"
    ∷ codes "  (import \"env\" \"memory\" (memory 1)))\n"
    ∷ codes "  (func $main (type 0)))\n"
    ∷ []

memory_lines-bare : any is_bare_import (map clean memory_lines) ≡ true
unfolding clean starts_with find_after strip strip_where drop_while is_space
memory_lines-bare = refl

wat_to_inst-bare_import_example : (e : Error) × (wat_to_inst memory_lines ≡ err e)
wat_to_inst-bare_import_example = wat_to_inst-bare_import memory_lines memory_lines-bare
