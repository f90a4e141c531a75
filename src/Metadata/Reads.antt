-- ===== src/Metadata/Reads.antt =====
-- The file for the runtime read back.
use anonymous_repo.Prelude.{
  ◌≡◌, refl, ◌∙◌, ap, false, ◌&&◌, some, List, [], ◌∷◌, ◌++◌, length, All, All-append, Bool-cases,
  inl, inr, ◌==◌, ℕ, arith, pos, ◌<◌, ◌+◌,
}
use anonymous_repo.Text.Str.{Text, codes, is_space, split, split_on, words_from, flush, text_eq}
use anonymous_repo.Text.Edit.{is_in}
use anonymous_repo.Text.Words.{
  IsWord, IsWord-NoSpace, NoSpace, split-word_space, not_code, newline_code,
}
use anonymous_repo.Text.Split.{Lacks, split_on-sep, split_on-last}
use anonymous_repo.Text.Number.{decimal, parse_int}
use anonymous_repo.Text.Decimal.{decimal-All, parse_int-decimal}
use anonymous_repo.Metadata.Defs.{nop_offset, get_nop_offsets, offsets_text, metadata}

-- `split` gives words.
flush-IsWord : (w : Text) → NoSpace w → All IsWord (flush w)
unfolding flush
flush-IsWord [] h = tt
flush-IsWord (c ∷ w) h = (h, tt)

words_from-IsWord : (w t : Text) → NoSpace w → All IsWord (words_from w t)
unfolding words_from
words_from-IsWord w [] h = flush-IsWord w h
words_from-IsWord w (c ∷ t) h = elim (Bool-cases (is_space c)) [
  | inl e ↦
      rw e (
        All-append IsWord (flush w) (words_from [] t) (flush-IsWord w h)
          (words_from-IsWord [] t tt))
  | inr e ↦ rw e (
      words_from-IsWord (w ++ c ∷ []) t (All-append (λ x. is_space x ≡ false) w (c ∷ []) h (e, tt)))
]

split-IsWord : (t : Text) → All IsWord (split t)
unfolding split
split-IsWord t = words_from-IsWord [] t tt

nop_offset-IsWord :
    (line : Text) (eles : List Text) → All IsWord eles → All IsWord (nop_offset line eles)
unfolding nop_offset
nop_offset-IsWord line [] h = tt
nop_offset-IsWord line (a ∷ []) h = tt
nop_offset-IsWord line (a ∷ b ∷ []) h = tt
nop_offset-IsWord line (a ∷ b ∷ c ∷ []) h = tt
nop_offset-IsWord line (a ∷ b ∷ c ∷ d ∷ []) h = tt
nop_offset-IsWord line (a ∷ b ∷ c ∷ d ∷ e ∷ rest) h =
    elim (Bool-cases (text_eq c (codes "514") && is_in (codes "is_stmt") line)) [
      | inl k ↦ rw k (h.0, tt)
      | inr k ↦ rw k tt
    ]

pub get_nop_offsets-IsWord : (lines : List Text) → All IsWord (get_nop_offsets lines)
unfolding get_nop_offsets
get_nop_offsets-IsWord [] = tt
get_nop_offsets-IsWord (line ∷ lines) =
    All-append IsWord (nop_offset line (split line)) (get_nop_offsets lines)
      (nop_offset-IsWord line (split line) (split-IsWord line)) (get_nop_offsets-IsWord lines)

split-nil : split [] ≡ []
unfolding split
split-nil = refl

split-offsets_text :
    (offsets : List Text) → All IsWord offsets → split (offsets_text offsets) ≡ offsets
unfolding offsets_text
split-offsets_text [] h = split-nil
split-offsets_text (e ∷ offsets) (h, hs) =
    split-word_space e (offsets_text offsets) h ∙ ap (λ l. e ∷ l) (split-offsets_text offsets hs)

NoSpace-Lacks : (w : Text) → NoSpace w → Lacks 10 w
NoSpace-Lacks [] h = tt
NoSpace-Lacks (c ∷ w) (h, hs) = (not_code 10 c newline_code h, NoSpace-Lacks w hs)

offsets_text-Lacks : (offsets : List Text) → All IsWord offsets → Lacks 10 (offsets_text offsets)
unfolding offsets_text
offsets_text-Lacks [] h = tt
offsets_text-Lacks (e ∷ offsets) (h, hs) =
    All-append (λ c. (c == 10) ≡ false) e (32 ∷ offsets_text offsets)
      (NoSpace-Lacks e (IsWord-NoSpace e h)) (refl, offsets_text-Lacks offsets hs)

digit-ne-line_feed : (d : ℕ) → d < 10 → ((b'0' + d) == 10) ≡ false
digit-ne-line_feed d h = ground arith

-- The lines of the file are the two fixed words, the number of the addresses, and a row whose words are
-- the addresses that were found, in their order; behind it there is nothing.
pub metadata-get_nop_offsets :
    (lines : List Text)
    → (count : Text) × (row : Text) × (split_on 10 (metadata (get_nop_offsets lines))
        ≡ codes "x86_64" ∷ codes "nop" ∷ count ∷ row ∷ [] ∷ [])
      × (parse_int count ≡ some (pos (length (get_nop_offsets lines))))
      × (split row ≡ get_nop_offsets lines)
unfolding metadata
metadata-get_nop_offsets lines =
    let offsets = get_nop_offsets lines in
    let words = get_nop_offsets-IsWord lines in
    let count = decimal (length offsets) in
    let row = offsets_text offsets in
    let row_lines : split_on 10 (row ++ 10 ∷ []) ≡ row ∷ [] ∷ [] =
      split_on-sep 10 row [] (offsets_text-Lacks offsets words)
      ∙ ap (λ l. row ∷ l) (split_on-last 10 [] tt) in
    (
      count,
      row,
      split_on-sep 10 (codes "x86_64") (codes "nop" ++ 10 ∷ (count ++ 10 ∷ (row ++ 10 ∷ [])))
            (refl, (refl, (refl, (refl, (refl, (refl, tt))))))
          ∙ ap (λ l. codes "x86_64" ∷ l)
              (split_on-sep 10 (codes "nop") (count ++ 10 ∷ (row ++ 10 ∷ []))
                  (refl, (refl, (refl, tt)))
                ∙ ap (λ l. codes "nop" ∷ l)
                    (split_on-sep 10 count (row ++ 10 ∷ [])
                        (decimal-All (λ c. (c == 10) ≡ false) (length offsets) digit-ne-line_feed)
                      ∙ ap (λ l. count ∷ l) row_lines)),
      parse_int-decimal (length offsets),
      split-offsets_text offsets words,
    )
