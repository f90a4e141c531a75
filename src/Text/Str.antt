-- ===== src/Text/Str.antt =====
-- Python's `str` as a list of code points, with the methods that the program calls.
use Prim.Native.Char.{code}
use anonymous_repo.Prelude.{
  ℕ, String, Bool, true, false, ◌&&◌, ◌||◌, Option, none, some, List, [], ◌∷◌, ◌++◌, reverse, leb,
  ◌==◌, if◌then◌else◌,
}

abbrev pub Text : Type 0
Text = List ℕ

-- The code points of a literal.
abbrev pub codes : String → Text
codes String.[] = []
codes (String.◌∷◌ c s) = code c ∷ codes s

unfoldable pub text_eq : Text → Text → Bool
text_eq [] [] = true
text_eq (a ∷ s) (b ∷ t) = a == b && text_eq s t
text_eq _ _ = false

-- `str.isspace` of one character.
unfoldable pub is_space : ℕ → Bool
is_space c =
    (leb 9 c && leb c 13)
    || (leb 28 c && leb c 32)
    || c == 133
    || c == 160
    || c == 5760
    || (leb 8192 c && leb c 8202)
    || c == 8232
    || c == 8233
    || c == 8239
    || c == 8287
    || c == 12288

unfoldable pub drop_while : (ℕ → Bool) → Text → Text
drop_while p [] = []
drop_while p (c ∷ t) = if p c then drop_while p t else c ∷ t

-- `t.strip(…)`, over the characters of which `p` holds.
unfoldable pub strip_where : (ℕ → Bool) → Text → Text
unfolding drop_while
strip_where p t = reverse (drop_while p (reverse (drop_while p t)))

-- `t.strip()`
unfoldable pub strip : Text → Text
unfolding strip_where is_space
strip t = strip_where is_space t

-- `t.startswith(p)`
unfoldable pub starts_with : Text → Text → Bool
starts_with [] t = true
starts_with (a ∷ p) [] = false
starts_with (a ∷ p) (c ∷ t) = a == c && starts_with p t

-- What follows the first occurrence of `p` in `t`, if there is one: `t.find(p) != -1`, and
-- `t[t.find(p) + len(p):]`.
unfoldable pub after : Text → Text → Text
after [] t = t
after (a ∷ p) [] = []
after (a ∷ p) (c ∷ t) = after p t

unfoldable pub find_after : Text → Text → Option Text
unfolding starts_with after
find_after p [] = if starts_with p [] then some [] else none
find_after p (c ∷ t) = if starts_with p (c ∷ t) then some (after p (c ∷ t)) else find_after p t

unfoldable pub flush : Text → List Text
flush [] = []
flush (c ∷ t) = (c ∷ t) ∷ []

-- `t.split()`, with the word that is being read.
unfoldable pub words_from : Text → Text → List Text
unfolding is_space flush
words_from w [] = flush w
words_from w (c ∷ t) =
    (if is_space c then flush w else []) ++ words_from (if is_space c then [] else w ++ c ∷ []) t

unfoldable pub split : Text → List Text
unfolding words_from
split t = words_from [] t

-- `t.split(sep)` for a separator of one character.
unfoldable pub fields_from : ℕ → Text → Text → List Text
fields_from sep w [] = w ∷ []
fields_from sep w (c ∷ t) =
    (if c == sep then w ∷ [] else []) ++ fields_from sep (if c == sep then [] else w ++ c ∷ []) t

unfoldable pub split_on : ℕ → Text → List Text
unfolding fields_from
split_on sep t = fields_from sep [] t

-- `f.readlines()`: each line keeps its line feed.
unfoldable pub lines_from : Text → Text → List Text
unfolding flush
lines_from w [] = flush w
lines_from w (c ∷ t) =
    (if c == 10 then (w ++ c ∷ []) ∷ [] else [])
    ++ lines_from (if c == 10 then [] else w ++ c ∷ []) t

unfoldable pub readlines : Text → List Text
unfolding lines_from
readlines t = lines_from [] t
