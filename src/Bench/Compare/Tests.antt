-- ===== src/Bench/Compare/Tests.antt =====
-- The theorems on the comparison scripts at concrete inputs.
use anonymous_repo.Prelude.{
  index_error, ◌++◌, ℕ, ◌≡◌, ◌↔◌, ◌≤◌, refl, true, Option, none, some, List, [], ◌∷◌, map, length,
  All, arith, ℤ, pos, Result, ok, err, name_error,
}
use anonymous_repo.Text.Str.{Text, codes, split_on, starts_with, after, find_after, is_space}
use anonymous_repo.Text.Edit.{is_in}
use anonymous_repo.Text.Number.{decimal}
use anonymous_repo.Text.Words.{IsWord}
use anonymous_repo.Bench.Host.{Output, str}
use anonymous_repo.Bench.Policy.{second_last}
use anonymous_repo.Bench.Compare.Elapsed.{Floats, read_elapsed, read_elapsed_mac}
use anonymous_repo.Bench.Compare.Jobs.{Tables, folder_jobs, Job, csv_rows}
use anonymous_repo.Bench.Compare.Rows.{mvvm_time, rows_per_line}
use anonymous_repo.Bench.Compare.Lines.{IsOnly, Readable, rows_of}
use anonymous_repo.Bench.Compare.Times.{time_line, clock, read_elapsed-time_line}
use anonymous_repo.Bench.Compare.ComparisonMac
use anonymous_repo.Bench.Compare.Submitted.{IsLong, Submits, repeated, folder_jobs_lem}
use anonymous_repo.Bench.Compare.Hours.{hours, rows_per_line-hours}
use anonymous_repo.Bench.Compare.Csv.{side_by_side, csv_rows_iff}
use anonymous_repo.Bench.Compare.Gapbs
use anonymous_repo.Bench.Compare.Gapbs.{cmd, folder, arg, envs}
use anonymous_repo.Bench.Compare.Aligned.{twice, mvvm_jobs, table_jobs, main_rows-side_by_side}

-- Floats as the numbers that they are made from.
abbrev pairs : Floats
pairs = record {
  Value = ℤ × ℤ;
  float = λ t. none;
  add_thousandths = λ a b. some (a, b);
  is_time_of_day = λ t. true;
}

user-IsWord : IsWord (codes "0.01user")
unfolding is_space
user-IsWord = (refl, (refl, (refl, (refl, (refl, (refl, (refl, (refl, tt))))))))

system-IsWord : IsWord (codes "0.00system")
unfolding is_space
system-IsWord = (refl, (refl, (refl, (refl, (refl, (refl, (refl, (refl, (refl, (refl, tt))))))))))

abbrev short_line : Text
short_line = time_line (codes "0.01user") (codes "0.00system") (clock 1 0 2 3 4) (codes "99%CPU")

abbrev long_line : Text
long_line = time_line (codes "0.01user") (codes "0.00system") (hours 1 0 2 3 4) (codes "99%CPU")

read_elapsed-time_line_example :
    (read_elapsed pairs short_line none ≡ ok (some (pos 62, pos 34)))
    × (read_elapsed_mac pairs short_line none ≡ ok (some (pos 62, pos 34)))
read_elapsed-time_line_example =
    read_elapsed-time_line 1 0 2 3 4 (omega arith) (omega arith) (omega arith) (omega arith) pairs
      (codes "0.01user") (codes "0.00system") (codes "99%CPU") user-IsWord system-IsWord
      (pos 62, pos 34) refl none

short-IsOnly : IsOnly (codes "elapsed") short_line short_line
unfolding split_on is_in find_after starts_with after decimal
short-IsOnly = ([], [], refl, refl, tt, tt)

long-IsOnly : IsOnly (codes "elapsed") long_line long_line
unfolding split_on is_in find_after starts_with after decimal
long-IsOnly = ([], [], refl, refl, tt, tt)

short_runs :
    Readable
      (codes "elapsed")
      (read_elapsed pairs)
      ((codes "a=b bt", str short_line) ∷ [])
      ((pos 62, pos 34) ∷ [])
short_runs = (
  (
    short_line,
    short-IsOnly,
    λ last.
        (read_elapsed-time_line 1 0 2 3 4 (omega arith) (omega arith) (omega arith) (omega arith)
          pairs (codes "0.01user") (codes "0.00system") (codes "99%CPU") user-IsWord system-IsWord
          (pos 62, pos 34) refl last).0,
  ),
  tt,
)

-- A run of about a minute, and then one of more than an hour.
rows_per_line-hours_example :
    (rows_per_line
        (codes "elapsed")
        (read_elapsed pairs)
        ([] ++ (codes "a=b bt", str short_line) ∷ (codes "a=b redis", str long_line) ∷ [])
        none
      ≡ ok ([] ++ (codes "a=b bt", (pos 62, pos 34)) ∷ (codes "a=b redis", (pos 62, pos 34)) ∷ []))
    × (rows_per_line
          (codes "elapsed")
          (read_elapsed pairs)
          ((codes "a=b redis", str long_line) ∷ [])
          none
        ≡ err name_error)
rows_per_line-hours_example =
    rows_per_line-hours 1 0 2 3 4 (omega arith) (omega arith) (omega arith) (omega arith) pairs
      (codes "0.01user") (codes "0.00system") (codes "99%CPU") user-IsWord system-IsWord refl [] []
      (codes "a=b bt") short_line (codes "a=b redis") long_line [] [] (pos 62, pos 34) tt short_runs
      long-IsOnly tt

abbrev two_rows : List (Text × Text)
two_rows = (codes "a=b redis", codes "5") ∷ (codes "a=b linpack", codes "6") ∷ []

abbrev one_row : List (Text × ℕ)
one_row = (codes "a=b redis", 7) ∷ []

csv_rows_iff_example :
    (((out : List (Text × Text × List ℕ)) × (csv_rows 0 two_rows (one_row ∷ []) ≡ ok out))
      ↔ All (λ r. length two_rows ≤ length r) (one_row ∷ []))
    × (All (λ r. length two_rows ≤ length r) (one_row ∷ [])
        → csv_rows 0 two_rows (one_row ∷ []) ≡ ok (side_by_side two_rows (one_row ∷ [])))
csv_rows_iff_example = csv_rows_iff two_rows (one_row ∷ [])

-- A pool in which every run writes the same.
abbrev answers : {J : Type 0} → Text → List J → List (Text × Output)
answers output jobs = map (λ j. (codes "x", str output)) jobs

module _ {J T : Type 0} (mark : Text) (read : Text → Option T → Result (Option T)) (output : Text)
    (t : T) (only : IsOnly mark output output)
    (reads : (last : Option T) → read output last ≡ ok (some t)) where
  answers-Readable : (jobs : List J) → Readable mark read (answers output jobs) (map (λ j. t) jobs)
  answers-Readable [] = tt
  answers-Readable (j ∷ jobs) = ((output, only, reads), answers-Readable jobs)

answers-length :
    {J : Type 0} (output : Text) (jobs : List J) → length (answers output jobs) ≡ length jobs
answers-length output [] = refl
answers-length output (j ∷ jobs) = omega (arith, answers-length output jobs)

abbrev mvvm_line : Text
mvvm_line = codes "Execution time: 5 s"

mvvm_line-IsOnly : IsOnly (codes "Execution time:") mvvm_line mvvm_line
unfolding split_on is_in find_after starts_with after
mvvm_line-IsOnly = ([], [], refl, refl, tt, tt)

mvvm_line-time : (last : Option Text) → mvvm_time mvvm_line last ≡ ok (some (codes "5"))
unfolding mvvm_time split_on second_last
mvvm_line-time last = refl

short_line-time :
    (last : Option (ℤ × ℤ)) → read_elapsed pairs short_line last ≡ ok (some (pos 62, pos 34))
short_line-time last =
    (read_elapsed-time_line 1 0 2 3 4 (omega arith) (omega arith) (omega arith) (omega arith) pairs
      (codes "0.01user") (codes "0.00system") (codes "99%CPU") user-IsWord system-IsWord
      (pos 62, pos 34) refl last).0

abbrev mvvm_runs : List (Text × List Text × Text)
mvvm_runs = twice (mvvm_jobs cmd arg envs)

abbrev folder_runs : List Job
folder_runs = twice (table_jobs cmd folder arg envs)

main_rows-side_by_side_example :
    Gapbs.main_rows pairs
      (λ jobs. ok (answers mvvm_line jobs))
      (λ jobs. ok (answers short_line jobs))
      (λ jobs. ok (answers short_line jobs))
      (λ jobs. ok (answers short_line jobs))
    ≡ ok (
        side_by_side (rows_of (answers mvvm_line mvvm_runs) (map (λ j. codes "5") mvvm_runs)) (
          rows_of (answers short_line folder_runs) (map (λ j. (pos 62, pos 34)) folder_runs)
          ∷ rows_of (answers short_line folder_runs) (map (λ j. (pos 62, pos 34)) folder_runs)
          ∷ rows_of (answers short_line folder_runs) (map (λ j. (pos 62, pos 34)) folder_runs)
          ∷ []))
main_rows-side_by_side_example =
    let m =
      answers-Readable (codes "Execution time:") mvvm_time mvvm_line (codes "5") mvvm_line-IsOnly
        mvvm_line-time mvvm_runs in
    let e =
      answers-Readable (codes "elapsed") (read_elapsed pairs) short_line (pos 62, pos 34)
        short-IsOnly short_line-time folder_runs in
    main_rows-side_by_side pairs (λ jobs. ok (answers mvvm_line jobs))
      (λ jobs. ok (answers short_line jobs)) (λ jobs. ok (answers short_line jobs))
      (λ jobs. ok (answers short_line jobs)) (answers mvvm_line mvvm_runs)
      (answers short_line folder_runs) (answers short_line folder_runs)
      (answers short_line folder_runs) (map (λ j. codes "5") mvvm_runs)
      (map (λ j. (pos 62, pos 34)) folder_runs) (map (λ j. (pos 62, pos 34)) folder_runs)
      (map (λ j. (pos 62, pos 34)) folder_runs) (refl, answers-length mvvm_line mvvm_runs, m)
      (refl, answers-length short_line folder_runs, e)
      (refl, answers-length short_line folder_runs, e)
      (refl, answers-length short_line folder_runs, e)

-- The tables of bench_comparison_mac.py, which are too short, in two trials.
abbrev mac_tables : Tables
mac_tables = ComparisonMac.tables

mac_tables-short : ¬ IsLong mac_tables.cmd mac_tables.folder mac_tables.arg mac_tables.envs
unfolding ComparisonMac.cmd ComparisonMac.folder ComparisonMac.arg ComparisonMac.envs
mac_tables-short h = omega (arith, h.0)

folder_jobs_lem_example :
    (IsLong mac_tables.cmd mac_tables.folder mac_tables.arg mac_tables.envs
      → (jobs : List Job) × (folder_jobs 1 mac_tables ≡ ok (repeated 1 jobs))
        × Submits mac_tables.cmd mac_tables.folder mac_tables.arg mac_tables.envs jobs)
    × (¬ IsLong mac_tables.cmd mac_tables.folder mac_tables.arg mac_tables.envs
        → folder_jobs 2 mac_tables ≡ err index_error)
folder_jobs_lem_example = folder_jobs_lem 1 mac_tables
