-- ===== src/Bench/Compare/Aligned.antt =====
-- The measurements of bench_comparison_gapbs.py, from the runs to the rows of the file.
use anonymous_repo.Prelude.{
  Option, ◌≡◌, refl, ◌∙◌, none, List, [], ◌∷◌, ◌++◌, length, arith, Result, ok,
}
use anonymous_repo.Text.Str.{Text, codes}
use anonymous_repo.Bench.Host.{Output}
use anonymous_repo.Bench.Command.{trial}
use anonymous_repo.Bench.Policy.{jobs_for, trial_jobs}
use anonymous_repo.Bench.Compare.Jobs.{Job, Pool, folder_jobs_for, folder_jobs}
use anonymous_repo.Bench.Compare.Elapsed.{Floats, read_elapsed}
use anonymous_repo.Bench.Compare.Rows.{mvvm_time}
use anonymous_repo.Bench.Compare.Lines.{
  Readable, Readable-length, rows_of, length-rows_of, rows_per_line-Readable, rows_per_run-Readable,
}
use anonymous_repo.Bench.Compare.Csv.{csv_rows_iff, side_by_side}
use anonymous_repo.Bench.Compare.Gapbs
use anonymous_repo.Bench.Compare.Gapbs.{cmd, folder, arg, envs, tables}

-- One run for each command, from the tables that are lists of the same length.
abbrev pub table_jobs : List Text → List Text → List (List Text) → List Text → List Job
table_jobs (c ∷ cs) (f ∷ fs) (a ∷ as_) (e ∷ es) =
    (record { file = c; folder = f; arg = a; env = e }) ∷ table_jobs cs fs as_ es
table_jobs _ _ _ _ = []

abbrev pub mvvm_jobs : List Text → List (List Text) → List Text → List (Text × List Text × Text)
mvvm_jobs (c ∷ cs) (a ∷ as_) (e ∷ es) = (c ++ codes ".aot", a, e) ∷ mvvm_jobs cs as_ es
mvvm_jobs _ _ _ = []

-- A list twice, as there are two trials.
abbrev pub twice : {A : Type 0} → List A → List A
twice xs = xs ++ (xs ++ [])

gapbs-folder_jobs : folder_jobs trial tables ≡ ok (twice (table_jobs cmd folder arg envs))
unfolding folder_jobs folder_jobs_for cmd folder arg envs
gapbs-folder_jobs = refl

gapbs-trial_jobs :
    trial_jobs trial (codes ".aot" ∷ []) cmd arg envs ≡ ok (twice (mvvm_jobs cmd arg envs))
unfolding trial_jobs jobs_for cmd arg envs
gapbs-trial_jobs = refl

-- A pool gives one result for each run that it is asked for, each with a line that is read as a time.
abbrev pub Measures :
    {J T : Type 0}
    → Text
    → (Text → Option T → Result (Option T))
    → List J
    → Pool J
    → List (Text × Output)
    → List T
    → Type 0
Measures mark read jobs pool results ts =
    (pool jobs ≡ ok results) × (length results ≡ length jobs) × Readable mark read results ts

module _ (F : Floats) where
  -- The measurements with folders.
  abbrev pub MeasuresElapsed : Pool Job → List (Text × Output) → List F.Value → Type 0
  MeasuresElapsed pool results ts =
      Measures (codes "elapsed") (read_elapsed F) (twice (table_jobs cmd folder arg envs)) pool
        results ts

  abbrev pub MeasuresMvvm :
      Pool (Text × List Text × Text) → List (Text × Output) → List Text → Type 0
  MeasuresMvvm pool results ts =
      Measures (codes "Execution time:") mvvm_time (twice (mvvm_jobs cmd arg envs)) pool results ts

  run_mvvm-rows :
      (pool : Pool (Text × List Text × Text)) (results : List (Text × Output)) (ts : List Text)
      → MeasuresMvvm pool results ts
      → Gapbs.run_mvvm pool ≡ ok (rows_of results ts)
  unfolding Gapbs.run_mvvm
  run_mvvm-rows pool results ts (e, l, h) =
      rw (gapbs-trial_jobs, e)
        (rows_per_run-Readable (codes "Execution time:") mvvm_time results ts none h)

  run_native-rows :
      (pool : Pool Job) (results : List (Text × Output)) (ts : List F.Value)
      → MeasuresElapsed pool results ts
      → (Gapbs.run_native F pool ≡ ok (rows_of results ts))
        × (Gapbs.run_qemu_x86_64 F pool ≡ ok (rows_of results ts))
        × (Gapbs.run_qemu_aarch64 F pool ≡ ok (rows_of results ts))
  unfolding Gapbs.run_native Gapbs.run_qemu_x86_64 Gapbs.run_qemu_aarch64
  run_native-rows pool results ts (e, l, h) =
      let rows = rows_per_line-Readable (codes "elapsed") (read_elapsed F) results ts none h in
      rw (gapbs-folder_jobs, e) (rows, rows, rows)

  jobs-length :
      (length (twice (mvvm_jobs cmd arg envs)) ≡ 16)
      × (length (twice (table_jobs cmd folder arg envs)) ≡ 16)
  unfolding cmd folder arg envs
  jobs-length = (refl, refl)

  rows_of-length :
      {T : Type 0} (mark : Text) (read : Text → Option T → Result (Option T))
      (results : List (Text × Output)) (ts : List T)
      → Readable mark read results ts
      → length (rows_of results ts) ≡ length results
  rows_of-length mark read results ts h =
      length-rows_of results ts (Readable-length mark read results ts h)

  rows_of-mvvm :
      (pool : Pool (Text × List Text × Text)) (results : List (Text × Output)) (ts : List Text)
      → MeasuresMvvm pool results ts
      → length (rows_of results ts) ≡ 16
  rows_of-mvvm pool results ts (e, l, h) =
      rows_of-length (codes "Execution time:") mvvm_time results ts h ∙ l ∙ jobs-length.0

  rows_of-elapsed :
      (pool : Pool Job) (results : List (Text × Output)) (ts : List F.Value)
      → MeasuresElapsed pool results ts
      → length (rows_of results ts) ≡ 16
  rows_of-elapsed pool results ts (e, l, h) =
      rows_of-length (codes "elapsed") (read_elapsed F) results ts h ∙ l ∙ jobs-length.1

  -- If each of the pool's runs gives an output in which one line is read as a time, then the measurements
  -- raise nothing, and the rows for the file are the runs of MVVM in the order of the commands and trials,
  -- each with its time and the times of the runs of the same command and trial.
  pub main_rows-side_by_side :
      (pm : Pool (Text × List Text × Text)) (pn px pa : Pool Job)
      (rm rn rx ra : List (Text × Output)) (tm : List Text) (tn tx ta : List F.Value)
      → MeasuresMvvm pm rm tm
      → MeasuresElapsed pn rn tn
      → MeasuresElapsed px rx tx
      → MeasuresElapsed pa ra ta
      → Gapbs.main_rows F pm pn px pa
        ≡ ok (side_by_side (rows_of rm tm) (rows_of rx tx ∷ rows_of ra ta ∷ rows_of rn tn ∷ []))
  unfolding Gapbs.main_rows Gapbs.csv
  main_rows-side_by_side pm pn px pa rm rn rx ra tm tn tx ta hm hn hx ha =
      let m = rows_of-mvvm pm rm tm hm in
      let n = rows_of-elapsed pn rn tn hn in
      let x = rows_of-elapsed px rx tx hx in
      let a = rows_of-elapsed pa ra ta ha in
      let long =
        (csv_rows_iff (rows_of rm tm) (rows_of rx tx ∷ rows_of ra ta ∷ rows_of rn tn ∷ [])).1
          (omega arith, (omega arith, (omega arith, tt))) in
      rw
        (
          run_mvvm-rows pm rm tm hm,
          (run_native-rows pn rn tn hn).0,
          (run_native-rows px rx tx hx).1,
          (run_native-rows pa ra ta ha).2,
        )
        long
