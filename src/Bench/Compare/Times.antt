-- ===== src/Bench/Compare/Times.antt =====
-- The times that are read from the lines of /usr/bin/time.
use anonymous_repo.Prelude.{
  ℕ, ◌+◌, ◌*◌, ◌<◌, ◌≡◌, refl, ◌∙◌, ap, false, Option, some, [], ◌∷◌, ◌++◌, ◌==◌, arith, All-append,
  pos, ok,
}
use anonymous_repo.Text.Str.{Text, codes, is_space, split_on}
use anonymous_repo.Text.Words.{IsWord, NoSpace, split-word_space}
use anonymous_repo.Text.Number.{decimal}
use anonymous_repo.Text.Decimal.{decimal-All, decimal-IsWord, parse_int-decimal, digit-NoSpace}
use anonymous_repo.Text.Digits.{two_digits, parse_int-two_digits, replace-elapsed}
use anonymous_repo.Text.Split.{Lacks, split_on-sep, split_on-last}
use anonymous_repo.Bench.Clock.{combine-pos, digit-ne-colon, digit-ne-point}
use anonymous_repo.Bench.Compare.Elapsed.{
  Floats, total_seconds, minutes_time, elapsed_time, read_elapsed, read_elapsed_mac,
}

-- Minutes, seconds and hundredths, as /usr/bin/time writes them.
abbrev pub clock : ℕ → ℕ → ℕ → ℕ → ℕ → Text
clock m a b c d = decimal m ++ b':' ∷ (two_digits a b ++ b'.' ∷ two_digits c d)

-- Its first line, from the words for the user's and the system's time on.
abbrev pub time_line : Text → Text → Text → Text → Text
time_line user system elapsed rest =
    user ++ 32 ∷ (system ++ 32 ∷ ((elapsed ++ codes "elapsed") ++ 32 ∷ rest))

pub digit-Lacks :
    (k : ℕ)
    → ((d : ℕ) → d < 10 → ((b'0' + d) == k) ≡ false)
    → (a b : ℕ) → a < 10
    → b < 10
    → Lacks k (two_digits a b)
digit-Lacks k other a b h i = (other a h, (other b i, tt))

pub digit-ne-e : (d : ℕ) → d < 10 → ((b'0' + d) == b'e') ≡ false
digit-ne-e d h = ground arith

module _ (k : ℕ) (other : (d : ℕ) → d < 10 → ((b'0' + d) == k) ≡ false) (m a b c d : ℕ) (p : a < 10)
    (q : b < 10) (r : c < 10) (s : d < 10) where
  seconds-Lacks : (b'.' == k) ≡ false → Lacks k (two_digits a b ++ b'.' ∷ two_digits c d)
  seconds-Lacks point =
      All-append (λ x. (x == k) ≡ false) (two_digits a b) (b'.' ∷ two_digits c d)
        (digit-Lacks k other a b p q) (point, digit-Lacks k other c d r s)

  clock-Lacks : (b'.' == k) ≡ false → (b':' == k) ≡ false → Lacks k (clock m a b c d)
  clock-Lacks point colon =
      All-append (λ x. (x == k) ≡ false) (decimal m)
        (b':' ∷ (two_digits a b ++ b'.' ∷ two_digits c d))
        (decimal-All (λ x. (x == k) ≡ false) m other) (colon, seconds-Lacks point)

pub IsWord-append : (w t : Text) → IsWord w → NoSpace t → IsWord (w ++ t)
IsWord-append [] t h k = absurd h
IsWord-append (c ∷ w) t h k = All-append (λ x. is_space x ≡ false) (c ∷ w) t h k

pub suffix-NoSpace : NoSpace (codes "elapsed")
unfolding is_space
suffix-NoSpace = (refl, (refl, (refl, (refl, (refl, (refl, (refl, tt)))))))

pub mark-NoSpace : (is_space b':' ≡ false) × (is_space b'.' ≡ false)
unfolding is_space
mark-NoSpace = (refl, refl)

module _ (m a b c d : ℕ) (p : a < 10) (q : b < 10) (r : c < 10) (s : d < 10) where
  clock-NoSpace : NoSpace (b':' ∷ (two_digits a b ++ b'.' ∷ two_digits c d))
  clock-NoSpace = (
    mark-NoSpace.0,
    (
      digit-NoSpace a p,
      (digit-NoSpace b q, (mark-NoSpace.1, (digit-NoSpace c r, (digit-NoSpace d s, tt)))),
    ),
  )

  elapsed-IsWord : IsWord (clock m a b c d ++ codes "elapsed")
  elapsed-IsWord =
      IsWord-append (clock m a b c d) (codes "elapsed")
        (IsWord-append (decimal m) (b':' ∷ (two_digits a b ++ b'.' ∷ two_digits c d))
          (decimal-IsWord m) clock-NoSpace)
        suffix-NoSpace

  clock-parts :
      split_on b':' (clock m a b c d) ≡ decimal m ∷ (two_digits a b ++ b'.' ∷ two_digits c d) ∷ []
  clock-parts =
      split_on-sep b':' (decimal m) (two_digits a b ++ b'.' ∷ two_digits c d)
        (decimal-All (λ x. (x == b':') ≡ false) m digit-ne-colon)
      ∙ ap (λ l. decimal m ∷ l)
          (split_on-last b':' (two_digits a b ++ b'.' ∷ two_digits c d)
            (seconds-Lacks b':' digit-ne-colon m a b c d p q r s refl))

  seconds-parts :
      split_on b'.' (two_digits a b ++ b'.' ∷ two_digits c d) ≡ two_digits a b ∷ two_digits c d ∷ []
  seconds-parts =
      split_on-sep b'.' (two_digits a b) (two_digits c d) (digit-Lacks b'.' digit-ne-point a b p q)
      ∙ ap (λ l. two_digits a b ∷ l)
          (split_on-last b'.' (two_digits c d) (digit-Lacks b'.' digit-ne-point c d r s))

  module _ (F : Floats) where
    minutes_time-clock :
        minutes_time F (decimal m, two_digits a b ++ b'.' ∷ two_digits c d)
        ≡ F.add_thousandths (pos (60 * m + (10 * a + b))) (pos (10 * c + d))
    unfolding minutes_time total_seconds
    minutes_time-clock =
        let whole : 0 * 0 + 60 * m + 1 * (10 * a + b) + 0 ≡ 60 * m + (10 * a + b) = omega arith in
        simp
          (
            seconds-parts,
            parse_int-decimal m,
            parse_int-two_digits a b p q,
            parse_int-two_digits c d r s,
          )
          (ap (λ x. F.add_thousandths x (pos (10 * c + d)))
            (combine-pos 0 0 60 m 1 (10 * a + b) 0 ∙ ap pos whole))

    elapsed_time-time_line :
        (user system rest : Text)
        → IsWord user
        → IsWord system
        → elapsed_time F (time_line user system (clock m a b c d) rest)
          ≡ F.add_thousandths (pos (60 * m + (10 * a + b))) (pos (10 * c + d))
    unfolding elapsed_time
    elapsed_time-time_line user system rest u v =
        let e = clock m a b c d ++ codes "elapsed" in
        let lacks = clock-Lacks b'e' digit-ne-e m a b c d p q r s refl refl in
        simp
          (
            split-word_space user (system ++ 32 ∷ (e ++ 32 ∷ rest)) u,
            split-word_space system (e ++ 32 ∷ rest) v,
            split-word_space e rest elapsed-IsWord,
            replace-elapsed (clock m a b c d) lacks,
            clock-parts,
          )
          minutes_time-clock

-- The line is read as the minutes and seconds, with the hundredths of a second added as thousandths,
-- by the code of bench_comparison.py, bench_comparison_mac.py, bench_comparison_gapbs.py and
-- bench_comparison_gapbs_mac.py; what was read before does not matter.
pub read_elapsed-time_line :
    (m a b c d : ℕ)
    → a < 10
    → b < 10
    → c < 10
    → d < 10
    → (F : Floats) (user system rest : Text) → IsWord user
    → IsWord system
    → (v : F.Value) → F.add_thousandths (pos (60 * m + (10 * a + b))) (pos (10 * c + d)) ≡ some v
    → (exec_time : Option F.Value)
    → (read_elapsed F (time_line user system (clock m a b c d) rest) exec_time ≡ ok (some v))
      × (read_elapsed_mac F (time_line user system (clock m a b c d) rest) exec_time ≡ ok (some v))
unfolding read_elapsed read_elapsed_mac
read_elapsed-time_line m a b c d p q r s F user system rest i j v h exec_time =
    let e = elapsed_time-time_line m a b c d p q r s F user system rest i j ∙ h in
    (rw e refl, rw e refl)
