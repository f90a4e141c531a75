-- ===== src/Text/Tests.antt =====
-- Runs of the text functions at concrete inputs.
use anonymous_repo.Prelude.{◌≡◌, refl, none, some, [], ◌∷◌, negsuc}
use anonymous_repo.Text.Str.{codes, split, split_on, strip}
use anonymous_repo.Text.Number.{parse_int, show_int}

split_example :
    split (codes " (func $f  (type 0)")
    ≡ codes "(func" ∷ codes "$f" ∷ codes "(type" ∷ codes "0)" ∷ []
unfolding split
split_example = refl

split_on_example : split_on 32 (codes "a  b ") ≡ codes "a" ∷ [] ∷ codes "b" ∷ [] ∷ []
unfolding split_on
split_on_example = refl

strip_example : strip (codes "  a b  ") ≡ codes "a b"
unfolding strip
strip_example = refl

parse_int_example : parse_int (codes " -1_20 ") ≡ some (negsuc 119)
unfolding parse_int
parse_int_example = refl

parse_int_bad : parse_int (codes "1__2") ≡ none
unfolding parse_int
parse_int_bad = refl

show_int_example : show_int (negsuc 119) ≡ codes "-120"
unfolding show_int
show_int_example = refl
