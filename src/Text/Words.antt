-- ===== src/Text/Words.antt =====
-- Splitting, stripping and reading back text that is made of words without spaces.
use mathlib.Core.Path.{subst}
use mathlib.Core.List.{reverse-append, reverse-reverse}
use anonymous_repo.Prelude.{
  ℕ, ◌≡◌, refl, sym, true, false, [], ◌∷◌, ◌++◌, reverse, append_assoc, append-nil, ◌==◌, ==_iff,
  All, All-append, Bool-cases, inl, inr,
}
use anonymous_repo.Text.Str.{
  Text, is_space, drop_while, strip, flush, words_from, split, fields_from, split_on, lines_from,
  readlines,
}

abbrev pub NoSpace : Text → Type 0
NoSpace = All (λ c. is_space c ≡ false)

-- Some character, and no space.
abbrev pub IsWord : Text → Type 0
IsWord [] = ⊥
IsWord (c ∷ w) = NoSpace (c ∷ w)

pub IsWord-NoSpace : (w : Text) → IsWord w → NoSpace w
IsWord-NoSpace [] h = tt
IsWord-NoSpace (c ∷ w) h = h

pub not_code : (k c : ℕ) → is_space k ≡ true → is_space c ≡ false → (c == k) ≡ false
not_code k c h n = elim (Bool-cases (c == k)) [
  | inl e ↦ cc (subst (λ x. is_space x ≡ false) ((==_iff c k).0 e) n)
  | inr e ↦ e
]

space_code : is_space 32 ≡ true
unfolding is_space
space_code = refl

pub newline_code : is_space 10 ≡ true
unfolding is_space
newline_code = refl

pub words_from-space :
    (acc w t : Text) → NoSpace w → words_from acc (w ++ 32 ∷ t) ≡ flush (acc ++ w) ++ split t
unfolding words_from split
words_from-space acc [] t h = simp append-nil
words_from-space acc (c ∷ w) t h =
    simp (h.0, words_from-space (acc ++ c ∷ []) w t h.1, append_assoc)

pub words_from-end : (acc w : Text) → NoSpace w → words_from acc w ≡ flush (acc ++ w)
unfolding words_from
words_from-end acc [] h = simp append-nil
words_from-end acc (c ∷ w) h = simp (h.0, words_from-end (acc ++ c ∷ []) w h.1, append_assoc)

-- The first word of a text is followed by a space.
pub split-word_space : (w t : Text) → IsWord w → split (w ++ 32 ∷ t) ≡ w ∷ split t
unfolding split flush
split-word_space [] t h = absurd h
split-word_space (c ∷ w) t h = words_from-space [] (c ∷ w) t h

pub split-word : (w : Text) → IsWord w → split w ≡ w ∷ []
unfolding split flush
split-word [] h = absurd h
split-word (c ∷ w) h = words_from-end [] (c ∷ w) h

fields_from-space :
    (acc w t : Text) → NoSpace w → fields_from 32 acc (w ++ 32 ∷ t) ≡ (acc ++ w) ∷ split_on 32 t
unfolding fields_from split_on
fields_from-space acc [] t h = simp append-nil
fields_from-space acc (c ∷ w) t h =
    simp (not_code 32 c space_code h.0, fields_from-space (acc ++ c ∷ []) w t h.1, append_assoc)

fields_from-end : (acc w : Text) → NoSpace w → fields_from 32 acc w ≡ (acc ++ w) ∷ []
unfolding fields_from
fields_from-end acc [] h = simp append-nil
fields_from-end acc (c ∷ w) h =
    simp (not_code 32 c space_code h.0, fields_from-end (acc ++ c ∷ []) w h.1, append_assoc)

pub split_on-word : (w : Text) → NoSpace w → split_on 32 w ≡ w ∷ []
unfolding split_on
split_on-word w h = fields_from-end [] w h

pub split_on-word_space : (w t : Text) → NoSpace w → split_on 32 (w ++ 32 ∷ t) ≡ w ∷ split_on 32 t
unfolding split_on
split_on-word_space w t h = fields_from-space [] w t h

-- No line feed inside.
abbrev pub OneLine : Text → Type 0
OneLine = All (λ c. (c == 10) ≡ false)

pub NoSpace-OneLine : (w : Text) → NoSpace w → OneLine w
NoSpace-OneLine [] h = tt
NoSpace-OneLine (c ∷ w) h = (not_code 10 c newline_code h.0, NoSpace-OneLine w h.1)

lines_from-newline :
    (acc l t : Text)
    → OneLine l
    → lines_from acc (l ++ 10 ∷ t) ≡ (acc ++ (l ++ 10 ∷ [])) ∷ readlines t
unfolding lines_from readlines
lines_from-newline acc [] t h = refl
lines_from-newline acc (c ∷ l) t h =
    simp (h.0, lines_from-newline (acc ++ c ∷ []) l t h.1, append_assoc)

pub readlines-newline :
    (l t : Text) → OneLine l → readlines (l ++ 10 ∷ t) ≡ (l ++ 10 ∷ []) ∷ readlines t
unfolding readlines
readlines-newline l t h = lines_from-newline [] l t h

-- The text begins with a character that is no space.
abbrev pub StartsSolid : Text → Type 0
StartsSolid [] = ⊥
StartsSolid (c ∷ t) = is_space c ≡ false

drop_while-StartsSolid : (t : Text) → StartsSolid t → drop_while is_space t ≡ t
unfolding drop_while
drop_while-StartsSolid [] h = absurd h
drop_while-StartsSolid (c ∷ t) h = simp h

StartsSolid-append : (s t : Text) → StartsSolid s → StartsSolid (s ++ t)
StartsSolid-append [] t h = absurd h
StartsSolid-append (c ∷ s) t h = h

NoSpace-reverse : (w : Text) → NoSpace w → NoSpace (reverse w)
NoSpace-reverse [] h = tt
NoSpace-reverse (c ∷ w) h =
    rw (reverse-append (c ∷ []) w)
      (All-append (λ c. is_space c ≡ false) (reverse w) (c ∷ []) (NoSpace-reverse w h.1) (h.0, tt))

StartsSolid-of_pieces :
    (s t : Text) (c : ℕ) → NoSpace s → is_space c ≡ false → StartsSolid (s ++ c ∷ t)
StartsSolid-of_pieces [] t c h k = k
StartsSolid-of_pieces (d ∷ s) t c h k = h.0

-- The last character of a word is no space.
reverse-StartsSolid : (s w : Text) → IsWord w → StartsSolid (reverse (s ++ w))
reverse-StartsSolid s [] h = absurd h
reverse-StartsSolid s (c ∷ w) h =
    rw (reverse-append s (c ∷ w), reverse-append (c ∷ []) w, append_assoc)
      (StartsSolid-of_pieces (reverse w) (reverse s) c (NoSpace-reverse w h.1) h.0)

pub IsWord-StartsSolid : (w : Text) → IsWord w → StartsSolid w
IsWord-StartsSolid [] h = absurd h
IsWord-StartsSolid (c ∷ w) h = h.0

pub strip-solid : (t : Text) → StartsSolid t → StartsSolid (reverse t) → strip t ≡ t
unfolding strip
strip-solid t h k =
    simp (drop_while-StartsSolid t h, drop_while-StartsSolid (reverse t) k, reverse-reverse)

pub strip-newline : (t : Text) → StartsSolid t → StartsSolid (reverse t) → strip (t ++ 10 ∷ []) ≡ t
unfolding strip
strip-newline t h k =
    let front = drop_while-StartsSolid (t ++ 10 ∷ []) (StartsSolid-append t (10 ∷ []) h) in
    simp (front, reverse-append t (10 ∷ []), drop_while-StartsSolid (reverse t) k, reverse-reverse)

-- A word, or two with a space between: the lines that the program writes and reads back.
pub strip-word : (w : Text) → IsWord w → strip w ≡ w
strip-word w h = strip-solid w (IsWord-StartsSolid w h) (reverse-StartsSolid [] w h)

pub strip-word_newline : (w : Text) → IsWord w → strip (w ++ 10 ∷ []) ≡ w
strip-word_newline w h = strip-newline w (IsWord-StartsSolid w h) (reverse-StartsSolid [] w h)

pub strip-words_newline :
    (w v : Text) → IsWord w → IsWord v → strip ((w ++ 32 ∷ v) ++ 10 ∷ []) ≡ w ++ 32 ∷ v
strip-words_newline w v h k =
    strip-newline (w ++ 32 ∷ v) (StartsSolid-append w (32 ∷ v) (IsWord-StartsSolid w h))
      (rw (sym (append_assoc w (32 ∷ []) v)) (reverse-StartsSolid (w ++ 32 ∷ []) v k))
