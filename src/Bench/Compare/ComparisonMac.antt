-- ===== src/Bench/Compare/ComparisonMac.antt =====
-- artifact/bench_comparison_mac.py.
use anonymous_repo.Prelude.{List, [], ◌∷◌, none, Result, ◌>>=◌, map}
use anonymous_repo.Text.Str.{Text, codes, strip}
use anonymous_repo.Bench.Compare.Jobs.{Tables, Pool, Job, folder_jobs, csv_rows, remove_all}
use anonymous_repo.Bench.Command.{trial}
use anonymous_repo.Bench.Policy.{trial_jobs}
use anonymous_repo.Bench.Compare.Rows.{mvvm_time_words, rows_per_run, rows_per_line}
use anonymous_repo.Bench.Compare.Elapsed.{Floats, read_elapsed_mac, read_elapsed}
use anonymous_repo.Bench.Averages.{group_from}

unfoldable pub cmd : List Text
cmd =
    codes "linpack"
    ∷ codes "llama"
    ∷ codes "rgbd_tum"
    ∷ codes "tc"
    ∷ codes "bt"
    ∷ codes "cg"
    ∷ codes "ft"
    ∷ codes "lu"
    ∷ codes "mg"
    ∷ codes "sp"
    ∷ codes "redis"
    ∷ codes "hdastar"
    ∷ []

unfoldable pub folder : List Text
folder =
    codes "linpack"
    ∷ codes "llama"
    ∷ codes "ORB_SLAM2nas"
    ∷ codes "nas"
    ∷ codes "nas"
    ∷ codes "nas"
    ∷ codes "nas"
    ∷ codes "nas"
    ∷ codes "redis"
    ∷ codes "hdastar"
    ∷ []

unfoldable pub arg : List (List Text)
arg =
    []
    ∷ (codes "stories110M.bin" ∷ codes "-z" ∷ codes "tokenizer.bin" ∷ codes "-t" ∷ codes "0.0" ∷ [])
    ∷ (codes "./ORBvoc.txt,"
        ∷ codes "./TUM3.yaml"
        ∷ codes "./"
        ∷ codes "./associations/fr1_xyz.txt"
        ∷ [])
    ∷ []
    ∷ []
    ∷ []
    ∷ []
    ∷ []
    ∷ []
    ∷ []
    ∷ (codes "maze-6404.txt" ∷ codes "8" ∷ [])
    ∷ []

unfoldable pub envs : List Text
envs =
    codes "a=b"
    ∷ codes "OMP_NUM_THREADS=1"
    ∷ codes "a=b"
    ∷ codes "OMP_NUM_THREADS=1"
    ∷ codes "OMP_NUM_THREADS=1"
    ∷ codes "OMP_NUM_THREADS=1"
    ∷ codes "OMP_NUM_THREADS=1"
    ∷ codes "OMP_NUM_THREADS=1"
    ∷ codes "OMP_NUM_THREADS=1"
    ∷ codes "a=b"
    ∷ codes "a=b"
    ∷ []

abbrev pub tables : Tables
tables = record { cmd = cmd; folder = folder; arg = arg; envs = envs }

-- `run_mvvm`, with the pool's runs of `common_util.run`.
unfoldable pub run_mvvm : Pool (Text × List Text × Text) → Result (List (Text × Text))
unfolding cmd arg envs
run_mvvm pool = do
  jobs ← trial_jobs trial (codes ".aot" ∷ []) cmd arg envs
  results1 ← pool jobs
  rows_per_run (codes "Execution time:") mvvm_time_words results1 none

module _ (F : Floats) where
  -- With the pool's runs of `common_util.run_hcontainer`.
  unfoldable pub run_hcontainer : Pool Job → Result (List (Text × F.Value))
  unfolding cmd folder arg envs
  run_hcontainer pool = do
    jobs ← folder_jobs trial tables
    results1 ← pool jobs
    rows_per_line (codes "elapsed") (read_elapsed_mac F) results1 none

  -- With the pool's runs of `common_util.run_qemu_x86_64`.
  unfoldable pub run_qemu_x86_64 : Pool Job → Result (List (Text × F.Value))
  unfolding cmd folder arg envs
  run_qemu_x86_64 pool = do
    jobs ← folder_jobs trial tables
    results1 ← pool jobs
    rows_per_line (codes "elapsed") (read_elapsed F) results1 none

  -- With the pool's runs of `common_util.run_qemu_aarch64`.
  unfoldable pub run_qemu_aarch64 : Pool Job → Result (List (Text × F.Value))
  unfolding cmd folder arg envs
  run_qemu_aarch64 pool = do
    jobs ← folder_jobs trial tables
    results1 ← pool jobs
    rows_per_line (codes "elapsed") (read_elapsed_mac F) results1 none

  -- With the pool's runs of `common_util.run_native`.
  unfoldable pub run_native : Pool Job → Result (List (Text × F.Value))
  unfolding cmd folder arg envs
  run_native pool = do
    jobs ← folder_jobs trial tables
    results1 ← pool jobs
    rows_per_line (codes "elapsed") (read_elapsed_mac F) results1 none

-- `write_to_csv`: the rows behind the header.
unfoldable pub csv :
    {T V : Type 0}
    → List (Text × T)
    → List (Text × V)
    → List (Text × V)
    → List (Text × V)
    → List (Text × V)
    → Result (List (Text × T × List V))
unfolding csv_rows
csv mvvm_results hcontainer_results qemu_x86_64_results qemu_aarch64_results native_results =
    csv_rows 0 mvvm_results
      (hcontainer_results ∷ qemu_x86_64_results ∷ qemu_aarch64_results ∷ native_results ∷ [])

-- The key of a workload in `plot`.
unfoldable pub label : Text → Text
unfolding remove_all strip
label workload = strip (
    remove_all
      (codes "OMP_NUM_THREADS="
        ∷ codes "-g20"
        ∷ codes "-n300"
        ∷ codes " -f "
        ∷ codes "-vn300"
        ∷ codes "maze-6404.txt"
        ∷ codes "stories110M.bin"
        ∷ codes "-z tokenizer.bin -t 0.0"
        ∷ [])
      workload)

-- `workloads` of `plot`.
unfoldable pub plot_groups : {V : Type 0} → List (Text × V) → List (Text × List V)
unfolding label group_from
plot_groups rows = group_from [] (map (λ row. (label row.0, row.1)) rows)
