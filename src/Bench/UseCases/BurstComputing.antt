-- ===== src/Bench/UseCases/BurstComputing.antt =====
-- artifact/usecase_burst_computing.py.
use anonymous_repo.Prelude.{List, [], ◌∷◌, some, Result, ◌>>=◌, drop, map}
use anonymous_repo.Text.Str.{Text, codes, strip}
use anonymous_repo.Bench.Compare.Jobs.{Tables, Pool, csv_rows, remove_all}
use anonymous_repo.Bench.Command.{trial}
use anonymous_repo.Bench.Policy.{trial_jobs}
use anonymous_repo.Bench.Compare.Rows.{mvvm_time, rows_per_run}
use anonymous_repo.Bench.Averages.{group_from}

unfoldable pub cmd : List Text
cmd = codes "redis" ∷ codes "rgbd_tum" ∷ []

unfoldable pub folder : List Text
folder = codes "redis" ∷ codes "ORB_SLAM2" ∷ []

unfoldable pub arg : List (List Text)
arg =
    []
    ∷ (codes "./ORBvoc.txt"
        ∷ codes "./TUM3.yaml"
        ∷ codes "./"
        ∷ codes "./associations/fr3_office_val.txt"
        ∷ [])
    ∷ []

unfoldable pub envs : List Text
envs = codes "OMP_NUM_THREADS=1" ∷ codes "OMP_NUM_THREADS=1" ∷ []

abbrev pub tables : Tables
tables = record { cmd = cmd; folder = folder; arg = arg; envs = envs }

-- With the pool's runs of `common_util.run`.
unfoldable pub get_cloud_result : Pool (Text × List Text × Text) → Result (List (Text × Text))
unfolding cmd arg envs
get_cloud_result pool = do
  jobs ← trial_jobs trial (codes ".aot" ∷ []) cmd arg envs
  results1 ← pool jobs
  rows_per_run (codes "Execution time:") mvvm_time results1 (some [])

-- `write_to_csv`: the rows behind the header.
unfoldable pub csv :
    List (Text × Text)
    → List (Text × Text)
    → List (Text × Text)
    → Result (List (Text × Text × List Text))
unfolding csv_rows
csv fasttier slowtier snapshot = csv_rows 0 fasttier (slowtier ∷ snapshot ∷ [])

-- `read_from_csv`, from the rows of the file: all but the first.
unfoldable pub read_csv : List (List Text) → List (List Text)
read_csv rows = drop 1 rows

-- The key of a workload in `plot`.
unfoldable pub label : Text → Text
unfolding remove_all strip
label workload = strip (
    remove_all
      (codes "OMP_NUM_THREADS="
        ∷ codes "-g15"
        ∷ codes "-n300"
        ∷ codes " -f "
        ∷ codes "-vn300"
        ∷ codes "maze-6404.txt"
        ∷ codes "stories110M.bin"
        ∷ codes "-z tokenizer.bin -t 0.0"
        ∷ codes "ORBvoc.txt"
        ∷ codes "TUM3.yaml"
        ∷ codes "./associations/fr1_xyz.txt"
        ∷ codes "./"
        ∷ [])
      workload)

-- `workloads` of `plot`.
unfoldable pub plot_groups : {V : Type 0} → List (Text × V) → List (Text × List V)
unfolding label group_from
plot_groups rows = group_from [] (map (λ row. (label row.0, row.1)) rows)
