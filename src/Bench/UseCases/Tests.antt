-- ===== src/Bench/UseCases/Tests.antt =====
-- The theorems on the use cases and on groups at concrete inputs.
use anonymous_repo.Prelude.{◌≡◌, refl, true, some, List, [], ◌∷◌, ltb_ℤ, ℤ, pos}
use anonymous_repo.Text.Str.{Text, codes, split_on}
use anonymous_repo.Text.Edit.{is_in}
use anonymous_repo.Text.Number.{parse_int}
use anonymous_repo.Bench.Clock.{parse_time_no_msec, combine}
use anonymous_repo.Bench.UseCases.Tried.{Times}
use anonymous_repo.Bench.UseCases.Timeline.{
  burst_lines, burst_start, optimistic_lines, optimistic_start,
}
use anonymous_repo.Bench.UseCases.Invariant.{IsWellFormed, plot_time-IsWellFormed}
use anonymous_repo.Bench.UseCases.Samples.{column, stamp, optimistic_samples}
use anonymous_repo.Bench.UseCases.SameLength.{IsEven, HasMemory, IsDated, optimistic_samples-IsEven}

-- Floats as integers.
abbrev integers : Times
integers = record {
  Value = ℤ;
  float = λ t. parse_int t;
  of_seconds = λ z. z;
  of_thousandths = λ z. z;
  minus = λ x y. x;
  plus_one = λ x. x;
  plus_half = λ x. x;
  is_positive = λ x. ltb_ℤ (pos 0) x;
  is_small = λ x. true;
  is_busy = λ x. ltb_ℤ (pos 10) x;
}

abbrev recorded : List Text
recorded =
    codes "Iteration 1 took 5 s"
    ∷ codes "[info 10:00:01.5] Snapshot time: 2 s"
    ∷ codes "Snapshot unreadable"
    ∷ codes "[info 10:00:02.5] Execution time: 7 s"
    ∷ []

plot_time-IsWellFormed_example :
    IsWellFormed integers 5 4 (burst_lines integers recorded (burst_start integers))
    × IsWellFormed integers 4 0 (optimistic_lines integers recorded (optimistic_start integers))
plot_time-IsWellFormed_example = plot_time-IsWellFormed integers recorded

abbrev date_line : Text
date_line = codes "Mon Nov 25 10:00:00 UTC 2024"

abbrev sample_line : Text
sample_line = codes "root 77 50 x y 7"

date_line-stamp : stamp integers 0 date_line ≡ some (pos 36000)
unfolding stamp split_on parse_time_no_msec parse_int combine
date_line-stamp = refl

date_line-is_in : is_in (codes "2024") date_line ≡ true
unfolding is_in
date_line-is_in = refl

sample_line-HasMemory : HasMemory integers sample_line
unfolding column split_on parse_int
sample_line-HasMemory c e b = (pos 7, refl)

abbrev file_lines : List Text
file_lines = date_line ∷ sample_line ∷ []

file_lines-IsDated : IsDated integers 0 file_lines
file_lines-IsDated = (date_line-is_in, (pos 36000, date_line-stamp), (sample_line-HasMemory, tt))

optimistic_samples-IsEven_example :
    IsEven integers
      (optimistic_samples integers file_lines file_lines (sample_line ∷ []) (sample_line ∷ [])).0
    × IsEven integers
        (optimistic_samples integers file_lines file_lines (sample_line ∷ []) (sample_line ∷ [])).1
optimistic_samples-IsEven_example =
    optimistic_samples-IsEven integers file_lines file_lines (sample_line ∷ []) (sample_line ∷ [])
      file_lines-IsDated file_lines-IsDated (sample_line-HasMemory, tt) (sample_line-HasMemory, tt)

abbrev three_rows : List (Text × ℤ)
three_rows = (codes "redis", pos 1) ∷ (codes "bc", pos 2) ∷ (codes "redis", pos 3) ∷ []
