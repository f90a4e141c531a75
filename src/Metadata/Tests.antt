-- ===== src/Metadata/Tests.antt =====
-- The theorem on the metadata at concrete lines.
use anonymous_repo.Prelude.{◌≡◌, some, List, [], ◌∷◌, length, pos}
use anonymous_repo.Text.Str.{Text, codes, split, split_on}
use anonymous_repo.Text.Number.{parse_int}
use anonymous_repo.Metadata.Defs.{get_nop_offsets, metadata}
use anonymous_repo.Metadata.Reads.{metadata-get_nop_offsets}

abbrev dwarf_lines : List Text
dwarf_lines =
    codes "Address            Line   Column File   ISA Discriminator Flags"
    ∷ codes "0x0000000000000010      7    514      1   0             0  is_stmt"
    ∷ codes "0x0000000000000020      8      3      1   0             0  is_stmt"
    ∷ []

metadata-get_nop_offsets_example :
    (count : Text) × (row : Text) × (split_on 10 (metadata (get_nop_offsets dwarf_lines))
      ≡ codes "x86_64" ∷ codes "nop" ∷ count ∷ row ∷ [] ∷ [])
    × (parse_int count ≡ some (pos (length (get_nop_offsets dwarf_lines))))
    × (split row ≡ get_nop_offsets dwarf_lines)
metadata-get_nop_offsets_example = metadata-get_nop_offsets dwarf_lines
