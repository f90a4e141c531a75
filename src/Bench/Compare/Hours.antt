-- ===== src/Bench/Compare/Hours.antt =====
-- A time of an hour or more, which /usr/bin/time writes without a point.
use anonymous_repo.Prelude.{
  ℕ, ◌<◌, ◌≡◌, refl, ◌∙◌, ap, true, false, Option, none, List, [], ◌∷◌, ◌++◌, ◌==◌, All-append, ok,
  err, name_error,
}
use anonymous_repo.Text.Str.{Text, codes, split, split_on}
use anonymous_repo.Text.Words.{IsWord, split-word_space}
use anonymous_repo.Text.Number.{decimal}
use anonymous_repo.Text.Decimal.{decimal-All, decimal-IsWord, digit-NoSpace}
use anonymous_repo.Text.Digits.{two_digits, replace-elapsed}
use anonymous_repo.Text.Split.{Lacks, split_on-sep, split_on-last}
use anonymous_repo.Bench.Host.{Output, str}
use anonymous_repo.Bench.Clock.{digit-ne-colon}
use anonymous_repo.Bench.Compare.Elapsed.{
  Floats, elapsed_time, has_time_of_day, or_time_of_day, read_elapsed,
}
use anonymous_repo.Bench.Compare.Rows.{rows_per_line}
use anonymous_repo.Bench.Compare.Lines.{
  IsOnly, Readable, rows_of, Keeps, rows_per_line-Keeps, rows_per_line-unassigned,
}
use anonymous_repo.Bench.Compare.Times.{
  time_line, digit-ne-e, digit-Lacks, IsWord-append, suffix-NoSpace, mark-NoSpace,
}

-- Hours, minutes and seconds.
abbrev pub hours : ℕ → ℕ → ℕ → ℕ → ℕ → Text
hours h a b c d = decimal h ++ b':' ∷ (two_digits a b ++ b':' ∷ two_digits c d)

module _ (h a b c d : ℕ) (p : a < 10) (q : b < 10) (r : c < 10) (s : d < 10) where
  hours-Lacks_e : Lacks b'e' (hours h a b c d)
  hours-Lacks_e =
      All-append (λ x. (x == b'e') ≡ false) (decimal h)
        (b':' ∷ (two_digits a b ++ b':' ∷ two_digits c d))
        (decimal-All (λ x. (x == b'e') ≡ false) h digit-ne-e)
        (
          refl,
          All-append (λ x. (x == b'e') ≡ false) (two_digits a b) (b':' ∷ two_digits c d)
              (digit-Lacks b'e' digit-ne-e a b p q) (refl, digit-Lacks b'e' digit-ne-e c d r s),
        )

  hours-IsWord : IsWord (hours h a b c d ++ codes "elapsed")
  hours-IsWord =
      IsWord-append (hours h a b c d) (codes "elapsed")
        (IsWord-append (decimal h) (b':' ∷ (two_digits a b ++ b':' ∷ two_digits c d))
          (decimal-IsWord h)
          (
            mark-NoSpace.0,
            (
              digit-NoSpace a p,
              (digit-NoSpace b q, (mark-NoSpace.0, (digit-NoSpace c r, (digit-NoSpace d s, tt)))),
            ),
          ))
        suffix-NoSpace

  hours-parts : split_on b':' (hours h a b c d) ≡ decimal h ∷ two_digits a b ∷ two_digits c d ∷ []
  hours-parts =
      split_on-sep b':' (decimal h) (two_digits a b ++ b':' ∷ two_digits c d)
        (decimal-All (λ x. (x == b':') ≡ false) h digit-ne-colon)
      ∙ ap (λ l. decimal h ∷ l)
          (split_on-sep b':' (two_digits a b) (two_digits c d)
              (digit-Lacks b':' digit-ne-colon a b p q)
            ∙ ap (λ l. two_digits a b ∷ l)
                (split_on-last b':' (two_digits c d) (digit-Lacks b':' digit-ne-colon c d r s)))

  module _ (F : Floats) (user system rest : Text) (i : IsWord user) (j : IsWord system)
      (k : F.is_time_of_day (hours h a b c d) ≡ true) where
    words-hours :
        split (time_line user system (hours h a b c d) rest)
        ≡ user ∷ system ∷ (hours h a b c d ++ codes "elapsed") ∷ split rest
    words-hours =
        let e = hours h a b c d ++ codes "elapsed" in
        split-word_space user (system ++ 32 ∷ (e ++ 32 ∷ rest)) i
        ∙ ap (λ l. user ∷ l)
            (split-word_space system (e ++ 32 ∷ rest) j
              ∙ ap (λ l. system ∷ l) (split-word_space e rest hours-IsWord))

    elapsed_time-hours : elapsed_time F (time_line user system (hours h a b c d) rest) ≡ none
    unfolding elapsed_time
    elapsed_time-hours =
        simp (words-hours, replace-elapsed (hours h a b c d) hours-Lacks_e, hours-parts)

    has_time_of_day-hours : has_time_of_day F (time_line user system (hours h a b c d) rest) ≡ true
    unfolding has_time_of_day
    has_time_of_day-hours = simp (words-hours, replace-elapsed (hours h a b c d) hours-Lacks_e) k

    read_elapsed-hours :
        (last : Option F.Value)
        → read_elapsed F (time_line user system (hours h a b c d) rest) last ≡ ok last
    unfolding read_elapsed or_time_of_day
    read_elapsed-hours last = rw (elapsed_time-hours, has_time_of_day-hours) refl

    -- Where strptime accepts the time, that is below 24 hours, a run whose only line with a time is of an
    -- hour or more gets the time of the run before it, whatever runs with a time come before and behind
    -- these two; if it is the first one, NameError is raised.
    pub rows_per_line-hours :
        (earlier : List (Text × Output)) (es : List F.Value) (exec₀ output₀ exec output : Text)
        (later : List (Text × Output)) (ts : List F.Value) (t : F.Value)
        → Readable (codes "elapsed") (read_elapsed F) earlier es
        → Readable (codes "elapsed") (read_elapsed F) ((exec₀, str output₀) ∷ []) (t ∷ [])
        → IsOnly (codes "elapsed") output (time_line user system (hours h a b c d) rest)
        → Readable (codes "elapsed") (read_elapsed F) later ts
        → (rows_per_line
              (codes "elapsed")
              (read_elapsed F)
              (earlier ++ (exec₀, str output₀) ∷ (exec, str output) ∷ later)
              none
            ≡ ok (rows_of earlier es ++ (exec₀, t) ∷ (exec, t) ∷ rows_of later ts))
          × (rows_per_line (codes "elapsed") (read_elapsed F) ((exec, str output) ∷ later) none
              ≡ err name_error)
    rows_per_line-hours earlier es exec₀ output₀ exec output later ts t g r only l =
        let keeps : Keeps (codes "elapsed") (read_elapsed F) output =
          (time_line user system (hours h a b c d) rest, only, read_elapsed-hours) in
        (
          rows_per_line-Keeps (codes "elapsed") (read_elapsed F) earlier es exec₀ output₀ exec
              output later ts t g r keeps l,
          rows_per_line-unassigned (codes "elapsed") (read_elapsed F) exec output later keeps,
        )
