-- ===== src/Bench/Compare/Mac.antt =====
-- artifact/bench_mac.py.
use anonymous_repo.Prelude.{List, [], ◌∷◌, none, Result, map}
use anonymous_repo.Text.Str.{Text, codes, strip}
use anonymous_repo.Bench.Compare.Jobs.{Tables, csv_rows, remove_all}
use anonymous_repo.Bench.Host.{Host, Action, ◌>>=◌}
use anonymous_repo.Bench.Command.{trial}
use anonymous_repo.Bench.Run.{run}
use anonymous_repo.Bench.Compare.Turns.{mvvm_turns, native_turns, trials_of, computed}
use anonymous_repo.Bench.Compare.Rows.{mvvm_time_words, rows_per_line, rows_per_run}
use anonymous_repo.Bench.Compare.Elapsed.{Floats, read_user}
use anonymous_repo.Bench.Averages.{group_from}

unfoldable pub cmd : List Text
cmd =
    codes "linpack"
    ∷ codes "rgbd_tum"
    ∷ codes "bc"
    ∷ codes "bfs"
    ∷ codes "cc"
    ∷ codes "cc_sv"
    ∷ codes "pr"
    ∷ codes "pr_spmv"
    ∷ codes "sssp"
    ∷ codes "tc"
    ∷ codes "bt"
    ∷ codes "cg"
    ∷ codes "ft"
    ∷ codes "lu"
    ∷ codes "mg"
    ∷ codes "sp"
    ∷ codes "redis"
    ∷ []

unfoldable pub folder : List Text
folder =
    codes "linpack"
    ∷ codes "ORB_SLAM2"
    ∷ codes "gapbs"
    ∷ codes "gapbs"
    ∷ codes "gapbs"
    ∷ codes "gapbs"
    ∷ codes "gapbs"
    ∷ codes "gapbs"
    ∷ codes "gapbs"
    ∷ codes "gapbs"
    ∷ codes "nas"
    ∷ codes "nas"
    ∷ codes "nas"
    ∷ codes "nas"
    ∷ codes "nas"
    ∷ codes "nas"
    ∷ codes "redis"
    ∷ []

unfoldable pub arg : List (List Text)
arg =
    []
    ∷ (codes "./ORBvoc.txt"
        ∷ codes "./TUM3.yaml"
        ∷ codes "./"
        ∷ codes "./associations/fr1_xyz.txt"
        ∷ [])
    ∷ (codes "-g20" ∷ codes "-vn300" ∷ [])
    ∷ (codes "-g20" ∷ codes "-vn300" ∷ [])
    ∷ (codes "-g20" ∷ codes "-vn300" ∷ [])
    ∷ (codes "-g20" ∷ codes "-vn300" ∷ [])
    ∷ (codes "-g20" ∷ codes "-vn300" ∷ [])
    ∷ (codes "-g20" ∷ codes "-vn300" ∷ [])
    ∷ (codes "-g20" ∷ codes "-vn300" ∷ [])
    ∷ (codes "-g20" ∷ codes "-n1" ∷ [])
    ∷ []
    ∷ []
    ∷ []
    ∷ []
    ∷ []
    ∷ []
    ∷ []
    ∷ []

unfoldable pub envs : List Text
envs =
    codes "a=b"
    ∷ codes "a=b"
    ∷ codes "OMP_NUM_THREADS=4"
    ∷ codes "OMP_NUM_THREADS=4"
    ∷ codes "OMP_NUM_THREADS=4"
    ∷ codes "OMP_NUM_THREADS=4"
    ∷ codes "OMP_NUM_THREADS=4"
    ∷ codes "OMP_NUM_THREADS=4"
    ∷ codes "OMP_NUM_THREADS=4"
    ∷ codes "OMP_NUM_THREADS=4"
    ∷ codes "OMP_NUM_THREADS=4"
    ∷ codes "OMP_NUM_THREADS=4"
    ∷ codes "OMP_NUM_THREADS=4"
    ∷ codes "OMP_NUM_THREADS=4"
    ∷ codes "OMP_NUM_THREADS=4"
    ∷ codes "OMP_NUM_THREADS=4"
    ∷ codes "a=b"
    ∷ []

abbrev pub tables : Tables
tables = record { cmd = cmd; folder = folder; arg = arg; envs = envs }

module _ (h : Host) where
  unfoldable pub run_mvvm : Action (List (Text × Text))
  unfolding cmd arg envs run
  run_mvvm = do
    results1 ← trials_of (mvvm_turns (λ f a e. run h f a e []) cmd arg envs) trial
    computed (rows_per_line (codes "Execution time:") mvvm_time_words results1 none)

  module _ (F : Floats) where
    unfoldable pub run_native : Action (List (Text × F.Value))
    unfolding cmd folder arg envs
    run_native = do
      results1 ← trials_of (native_turns h cmd folder arg envs) trial
      computed (rows_per_run (codes "user") (read_user F) results1 none)

-- `write_to_csv`: the rows behind the header.
unfoldable pub csv :
    {T V : Type 0} → List (Text × T) → List (Text × V) → Result (List (Text × T × List V))
unfolding csv_rows
csv mvvm_results native_results = csv_rows 0 mvvm_results (native_results ∷ [])

-- The key of a workload in `plot`.
unfoldable pub label : Text → Text
unfolding remove_all strip
label workload = strip (
    remove_all
      (codes "OMP_NUM_THREADS="
        ∷ codes "-g15"
        ∷ codes "-n300"
        ∷ codes " -f "
        ∷ codes "-vn300"
        ∷ codes "maze-6404.txt"
        ∷ codes "stories110M.bin"
        ∷ codes "-z tokenizer.bin -t 0.0"
        ∷ codes "ORBvoc.txt"
        ∷ codes "TUM3.yaml"
        ∷ codes "./associations/fr1_xyz.txt"
        ∷ codes "./"
        ∷ [])
      workload)

-- `workloads` of `plot`.
unfoldable pub plot_groups : {V : Type 0} → List (Text × V) → List (Text × List V)
unfolding label group_from
plot_groups rows = group_from [] (map (λ row. (label row.0, row.1)) rows)
