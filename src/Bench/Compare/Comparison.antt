-- ===== src/Bench/Compare/Comparison.antt =====
-- artifact/bench_comparison.py.
use anonymous_repo.Prelude.{
  List, [], ◌∷◌, none, Result, ◌>>=◌, Bool, ◌&&◌, not, filter_if, ok, or_raise, index_error,
  get_elem?,
}
use anonymous_repo.Text.Str.{Text, codes, split_on}
use anonymous_repo.Bench.Compare.Jobs.{Tables, Pool, Job, folder_jobs, csv_rows}
use anonymous_repo.Bench.Command.{trial}
use anonymous_repo.Bench.Policy.{trial_jobs}
use anonymous_repo.Bench.Compare.Rows.{mvvm_time, rows_per_run, rows_per_line}
use anonymous_repo.Bench.Compare.Elapsed.{Floats, read_elapsed}
use anonymous_repo.Bench.Averages.{group_from}
use anonymous_repo.Text.Edit.{is_in, replace}

unfoldable pub cmd : List Text
cmd =
    codes "linpack"
    ∷ codes "llama"
    ∷ codes "bt"
    ∷ codes "cg"
    ∷ codes "ft"
    ∷ codes "lu"
    ∷ codes "mg"
    ∷ codes "sp"
    ∷ codes "redis"
    ∷ codes "hdastar"
    ∷ []

unfoldable pub folder : List Text
folder =
    codes "linpack"
    ∷ codes "llama"
    ∷ codes "nas"
    ∷ codes "nas"
    ∷ codes "nas"
    ∷ codes "nas"
    ∷ codes "nas"
    ∷ codes "nas"
    ∷ codes "redis"
    ∷ codes "hdastar"
    ∷ []

unfoldable pub arg : List (List Text)
arg =
    []
    ∷ (codes "stories110M.bin" ∷ codes "-z" ∷ codes "tokenizer.bin" ∷ codes "-t" ∷ codes "0.0" ∷ [])
    ∷ []
    ∷ []
    ∷ []
    ∷ []
    ∷ []
    ∷ []
    ∷ []
    ∷ (codes "maze-6404.txt" ∷ codes "8" ∷ [])
    ∷ []

unfoldable pub envs : List Text
envs =
    codes "a=b"
    ∷ codes "OMP_NUM_THREADS=1"
    ∷ codes "OMP_NUM_THREADS=1"
    ∷ codes "OMP_NUM_THREADS=1"
    ∷ codes "OMP_NUM_THREADS=1"
    ∷ codes "OMP_NUM_THREADS=1"
    ∷ codes "OMP_NUM_THREADS=1"
    ∷ codes "OMP_NUM_THREADS=1"
    ∷ codes "a=b"
    ∷ codes "a=b"
    ∷ []

abbrev pub tables : Tables
tables = record { cmd = cmd; folder = folder; arg = arg; envs = envs }

-- `run_mvvm`, with the pool's runs of `common_util.run`.
unfoldable pub run_mvvm : Pool (Text × List Text × Text) → Result (List (Text × Text))
unfolding cmd arg envs
run_mvvm pool = do
  jobs ← trial_jobs trial (codes ".aot" ∷ []) cmd arg envs
  results1 ← pool jobs
  rows_per_run (codes "Execution time:") mvvm_time results1 none

module _ (F : Floats) where
  -- With the pool's runs of `common_util.run_hcontainer`.
  unfoldable pub run_hcontainer : Pool Job → Result (List (Text × F.Value))
  unfolding cmd folder arg envs
  run_hcontainer pool = do
    jobs ← folder_jobs trial tables
    results1 ← pool jobs
    rows_per_line (codes "elapsed") (read_elapsed F) results1 none

  -- With the pool's runs of `common_util.run_qemu_x86_64`.
  unfoldable pub run_qemu_x86_64 : Pool Job → Result (List (Text × F.Value))
  unfolding cmd folder arg envs
  run_qemu_x86_64 pool = do
    jobs ← folder_jobs trial tables
    results1 ← pool jobs
    rows_per_line (codes "elapsed") (read_elapsed F) results1 none

  -- With the pool's runs of `common_util.run_qemu_aarch64`.
  unfoldable pub run_qemu_aarch64 : Pool Job → Result (List (Text × F.Value))
  unfolding cmd folder arg envs
  run_qemu_aarch64 pool = do
    jobs ← folder_jobs trial tables
    results1 ← pool jobs
    rows_per_line (codes "elapsed") (read_elapsed F) results1 none

  -- With the pool's runs of `common_util.run_native`.
  unfoldable pub run_native : Pool Job → Result (List (Text × F.Value))
  unfolding cmd folder arg envs
  run_native pool = do
    jobs ← folder_jobs trial tables
    results1 ← pool jobs
    rows_per_line (codes "elapsed") (read_elapsed F) results1 none

-- `write_to_csv`: the rows behind the header.
unfoldable pub csv :
    {T V : Type 0}
    → List (Text × T)
    → List (Text × V)
    → List (Text × V)
    → List (Text × V)
    → List (Text × V)
    → Result (List (Text × T × List V))
unfolding csv_rows
csv mvvm_results hcontainer_results qemu_x86_64_results qemu_aarch64_results native_results =
    csv_rows 0 mvvm_results
      (hcontainer_results ∷ qemu_x86_64_results ∷ qemu_aarch64_results ∷ native_results ∷ [])

-- The workloads that are plotted.
unfoldable pub is_plotted : Text → Bool
unfolding is_in
is_plotted workload =
    not (is_in (codes "sp") workload)
    && not (is_in (codes "lu") workload)
    && not (is_in (codes "tc") workload)

-- `workload.split(" ")[1].replace(".aot", "")`
unfoldable pub label : Text → Result Text
unfolding split_on replace
label workload = do
  w ← or_raise index_error (get_elem? (split_on 32 workload) 1)
  ok (replace (codes ".aot") [] w)

unfoldable pub labelled : {V : Type 0} → List (Text × V) → Result (List (Text × V))
unfolding label
labelled [] = ok []
labelled ((workload, v) ∷ rows) = do l ← label workload; ls ← labelled rows; ok ((l, v) ∷ ls)

-- `workloads` of `plot`, and `workloads1`.
unfoldable pub plot_groups : {V : Type 0} → List (Text × V) → Result (List (Text × List V))
unfolding is_plotted labelled group_from
plot_groups rows = do
  entries ← labelled (filter_if (λ row. is_plotted row.0) rows)
  ok (group_from [] entries)
