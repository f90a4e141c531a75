-- ===== src/Text/Split.antt =====
-- `split()` of texts that are put together with spaces.
use anonymous_repo.Prelude.{
  false, ==_iff, ◌==◌, ℕ, arith, true, not, all, ◌≡◌, refl, ◌∙◌, [], ◌∷◌, ◌++◌, append_assoc,
  append-nil, List, Bool-cases, inl, inr, All,
}
use anonymous_repo.Text.Str.{fields_from, split_on, Text, is_space, words_from, split}
use anonymous_repo.Text.Words.{NoSpace, IsWord, split-word}
use anonymous_repo.Text.Edit.{join, join_rest}

words_from-append_space : (w s t : Text) → words_from w (s ++ 32 ∷ t) ≡ words_from w s ++ split t
unfolding words_from split
words_from-append_space w [] t = refl
words_from-append_space w (c ∷ s) t = elim (Bool-cases (is_space c)) [
  | inl e ↦ simp (e, words_from-append_space [] s t, append_assoc)
  | inr e ↦ simp (e, words_from-append_space (w ++ c ∷ []) s t, append_assoc)
]

pub split-append_space : (s t : Text) → split (s ++ 32 ∷ t) ≡ split s ++ split t
unfolding split
split-append_space s t = words_from-append_space [] s t

-- The words of each part.
abbrev pub split_all : List Text → List Text
split_all [] = []
split_all (p ∷ ps) = split p ++ split_all ps

split-join_rest :
    (p : Text) (ps : List Text) → split (p ++ join_rest (32 ∷ []) ps) ≡ split p ++ split_all ps
unfolding join_rest
split-join_rest p [] = simp append-nil
split-join_rest p (q ∷ ps) =
    split-append_space p (q ++ join_rest (32 ∷ []) ps) ∙ simp (split-join_rest q ps)

pub split-join : (ps : List Text) → split (join (32 ∷ []) ps) ≡ split_all ps
unfolding join split words_from
split-join [] = refl
split-join (p ∷ ps) = split-join_rest p ps

pub split_all-words : (ps : List Text) → All IsWord ps → split_all ps ≡ ps
split_all-words [] h = refl
split_all-words (p ∷ ps) h = simp (split-word p h.0, split_all-words ps h.1)

-- The test of a literal by evaluation.
pub NoSpace-of_all : (t : Text) → all (λ c. not (is_space c)) t ≡ true → NoSpace t
NoSpace-of_all [] h = tt
NoSpace-of_all (c ∷ t) h = elim (Bool-cases (is_space c)) [
  | inl e ↦ absurd (ground (arith, e))
  | inr e ↦ (e, NoSpace-of_all t (ground (arith, e)))
]

-- Fields between separators that do not stand inside them.
abbrev pub Lacks : ℕ → Text → Type 0
Lacks sep = All (λ c. (c == sep) ≡ false)

fields_from-sep :
    (sep : ℕ) (acc w t : Text)
    → Lacks sep w
    → fields_from sep acc (w ++ sep ∷ t) ≡ (acc ++ w) ∷ split_on sep t
unfolding fields_from split_on
fields_from-sep sep acc [] t h =
    let e : (sep == sep) ≡ true = (==_iff sep sep).1 refl in simp (e, append-nil)
fields_from-sep sep acc (c ∷ w) t h =
    simp (h.0, fields_from-sep sep (acc ++ c ∷ []) w t h.1, append_assoc)

fields_from-last : (sep : ℕ) (acc w : Text) → Lacks sep w → fields_from sep acc w ≡ (acc ++ w) ∷ []
unfolding fields_from
fields_from-last sep acc [] h = simp append-nil
fields_from-last sep acc (c ∷ w) h =
    simp (h.0, fields_from-last sep (acc ++ c ∷ []) w h.1, append_assoc)

pub split_on-sep :
    (sep : ℕ) (w t : Text) → Lacks sep w → split_on sep (w ++ sep ∷ t) ≡ w ∷ split_on sep t
unfolding split_on
split_on-sep sep w t h = fields_from-sep sep [] w t h

pub split_on-last : (sep : ℕ) (w : Text) → Lacks sep w → split_on sep w ≡ w ∷ []
unfolding split_on
split_on-last sep w h = fields_from-last sep [] w h
