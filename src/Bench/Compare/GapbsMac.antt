-- ===== src/Bench/Compare/GapbsMac.antt =====
-- artifact/bench_comparison_gapbs_mac.py.
use anonymous_repo.Prelude.{List, [], ◌∷◌, none, Result, ◌>>=◌, map}
use anonymous_repo.Text.Str.{Text, codes, strip}
use anonymous_repo.Bench.Compare.Jobs.{Tables, Pool, Job, folder_jobs, csv_rows, remove_all}
use anonymous_repo.Bench.Command.{trial}
use anonymous_repo.Bench.Policy.{trial_jobs}
use anonymous_repo.Bench.Compare.Rows.{mvvm_time, rows_per_run, rows_per_line}
use anonymous_repo.Bench.Compare.Elapsed.{Floats, read_elapsed}
use anonymous_repo.Bench.Averages.{group_from}

unfoldable pub cmd : List Text
cmd =
    codes "bc"
    ∷ codes "bfs"
    ∷ codes "cc"
    ∷ codes "cc_sv"
    ∷ codes "pr"
    ∷ codes "pr_spmv"
    ∷ codes "sssp"
    ∷ codes "tc"
    ∷ []

unfoldable pub folder : List Text
folder =
    codes "gapbs"
    ∷ codes "gapbs"
    ∷ codes "gapbs"
    ∷ codes "gapbs"
    ∷ codes "gapbs"
    ∷ codes "gapbs"
    ∷ codes "gapbs"
    ∷ codes "gapbs"
    ∷ []

unfoldable pub arg : List (List Text)
arg =
    (codes "-g20" ∷ codes "-vn300" ∷ [])
    ∷ (codes "-g20" ∷ codes "-vn300" ∷ [])
    ∷ (codes "-g20" ∷ codes "-vn300" ∷ [])
    ∷ (codes "-g20" ∷ codes "-vn300" ∷ [])
    ∷ (codes "-g20" ∷ codes "-vn300" ∷ [])
    ∷ (codes "-g20" ∷ codes "-vn300" ∷ [])
    ∷ (codes "-g20" ∷ codes "-vn300" ∷ [])
    ∷ (codes "-g20" ∷ codes "-n1" ∷ [])
    ∷ []

unfoldable pub envs : List Text
envs =
    codes "OMP_NUM_THREADS=4"
    ∷ codes "OMP_NUM_THREADS=4"
    ∷ codes "OMP_NUM_THREADS=4"
    ∷ codes "OMP_NUM_THREADS=4"
    ∷ codes "OMP_NUM_THREADS=4"
    ∷ codes "OMP_NUM_THREADS=4"
    ∷ codes "OMP_NUM_THREADS=4"
    ∷ codes "OMP_NUM_THREADS=4"
    ∷ []

abbrev pub tables : Tables
tables = record { cmd = cmd; folder = folder; arg = arg; envs = envs }

-- `run_mvvm`, with the pool's runs of `common_util.run`.
unfoldable pub run_mvvm : Pool (Text × List Text × Text) → Result (List (Text × Text))
unfolding cmd arg envs
run_mvvm pool = do
  jobs ← trial_jobs trial (codes ".aot" ∷ []) cmd arg envs
  results1 ← pool jobs
  rows_per_run (codes "Execution time:") mvvm_time results1 none

module _ (F : Floats) where
  -- With the pool's runs of `common_util.run_qemu_x86_64`.
  unfoldable pub run_qemu_x86_64 : Pool Job → Result (List (Text × F.Value))
  unfolding cmd folder arg envs
  run_qemu_x86_64 pool = do
    jobs ← folder_jobs trial tables
    results1 ← pool jobs
    rows_per_line (codes "elapsed") (read_elapsed F) results1 none

  -- With the pool's runs of `common_util.run_qemu_aarch64`.
  unfoldable pub run_qemu_aarch64 : Pool Job → Result (List (Text × F.Value))
  unfolding cmd folder arg envs
  run_qemu_aarch64 pool = do
    jobs ← folder_jobs trial tables
    results1 ← pool jobs
    rows_per_line (codes "elapsed") (read_elapsed F) results1 none

  -- With the pool's runs of `common_util.run_native`.
  unfoldable pub run_native : Pool Job → Result (List (Text × F.Value))
  unfolding cmd folder arg envs
  run_native pool = do
    jobs ← folder_jobs trial tables
    results1 ← pool jobs
    rows_per_line (codes "elapsed") (read_elapsed F) results1 none

-- `write_to_csv`: the rows behind the header.
unfoldable pub csv :
    {T V : Type 0}
    → List (Text × T)
    → List (Text × V)
    → List (Text × V)
    → List (Text × V)
    → Result (List (Text × T × List V))
unfolding csv_rows
csv mvvm_results qemu_x86_64_results qemu_aarch64_results native_results =
    csv_rows 0 mvvm_results (qemu_x86_64_results ∷ qemu_aarch64_results ∷ native_results ∷ [])

-- The key of a workload in `plot`.
unfoldable pub label : Text → Text
unfolding remove_all strip
label workload = strip (
    remove_all
      (codes "OMP_NUM_THREADS="
        ∷ codes "-g20"
        ∷ codes "-n300"
        ∷ codes " -f "
        ∷ codes "-vn300"
        ∷ codes "maze-6404.txt"
        ∷ codes "stories110M.bin"
        ∷ codes "-z tokenizer.bin -t 0.0"
        ∷ [])
      workload)

-- `workloads` of `plot`.
unfoldable pub plot_groups : {V : Type 0} → List (Text × V) → List (Text × List V)
unfolding label group_from
plot_groups rows = group_from [] (map (λ row. (label row.0, row.1)) rows)
