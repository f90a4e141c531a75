-- ===== src/Bench/Memory.antt =====
-- artifact/memory_footprint_overhead.py.
use anonymous_repo.Prelude.{
  List, [], ◌∷◌, Result, ok, err, ◌>>=◌, index_error, value_error, stop_iteration, or_raise, ℤ, map,
}
use anonymous_repo.Text.Str.{Text, codes, strip}
use anonymous_repo.Bench.Compare.Jobs.{Tables, remove_all}
use anonymous_repo.Text.Number.{parse_int}
use anonymous_repo.Bench.Averages.{group_from}

unfoldable pub cmd : List Text
cmd =
    codes "linpack"
    ∷ codes "llama"
    ∷ codes "rgbd_tum"
    ∷ codes "bfs"
    ∷ codes "bc"
    ∷ codes "bfs"
    ∷ codes "cc"
    ∷ codes "cc_sv"
    ∷ codes "pr"
    ∷ codes "pr_spmv"
    ∷ codes "sssp"
    ∷ codes "tc"
    ∷ codes "bt"
    ∷ codes "cg"
    ∷ codes "ep"
    ∷ codes "ft"
    ∷ codes "lu"
    ∷ codes "mg"
    ∷ codes "sp"
    ∷ codes "redis"
    ∷ codes "hdastar"
    ∷ []

unfoldable pub folder : List Text
folder =
    codes "linpack"
    ∷ codes "llama"
    ∷ codes "ORB_SLAM2"
    ∷ codes "gapbs"
    ∷ codes "gapbs"
    ∷ codes "gapbs"
    ∷ codes "gapbs"
    ∷ codes "gapbs"
    ∷ codes "gapbs"
    ∷ codes "gapbs"
    ∷ codes "gapbs"
    ∷ codes "gapbs"
    ∷ codes "nas"
    ∷ codes "nas"
    ∷ codes "nas"
    ∷ codes "nas"
    ∷ codes "nas"
    ∷ codes "nas"
    ∷ codes "nas"
    ∷ codes "redis"
    ∷ codes "hdastar"
    ∷ []

unfoldable pub arg : List (List Text)
arg =
    []
    ∷ (codes "stories110M.bin" ∷ codes "-z" ∷ codes "tokenizer.bin" ∷ codes "-t" ∷ codes "0.0" ∷ [])
    ∷ (codes "./ORBvoc.txt"
        ∷ codes "./TUM3.yaml"
        ∷ codes "./"
        ∷ codes "./associations/fr1_xyz.txt"
        ∷ [])
    ∷ (codes "-f" ∷ codes "./road.sg" ∷ codes "-n300" ∷ [])
    ∷ (codes "-g20" ∷ codes "-vn300" ∷ [])
    ∷ (codes "-g20" ∷ codes "-vn300" ∷ [])
    ∷ (codes "-f" ∷ codes "./road.sg" ∷ codes "-n300" ∷ [])
    ∷ (codes "-g20" ∷ codes "-vn300" ∷ [])
    ∷ (codes "-g20" ∷ codes "-vn300" ∷ [])
    ∷ (codes "-g20" ∷ codes "-vn300" ∷ [])
    ∷ (codes "-g20" ∷ codes "-vn300" ∷ [])
    ∷ (codes "-g20" ∷ codes "-n300" ∷ [])
    ∷ []
    ∷ []
    ∷ []
    ∷ []
    ∷ []
    ∷ []
    ∷ []
    ∷ []
    ∷ (codes "maze-6404.txt" ∷ codes "8" ∷ [])
    ∷ []

unfoldable pub envs : List Text
envs =
    codes "a=b"
    ∷ codes "OMP_NUM_THREADS=4"
    ∷ codes "a=b"
    ∷ codes "OMP_NUM_THREADS=4"
    ∷ codes "OMP_NUM_THREADS=4"
    ∷ codes "OMP_NUM_THREADS=4"
    ∷ codes "OMP_NUM_THREADS=4"
    ∷ codes "OMP_NUM_THREADS=4"
    ∷ codes "OMP_NUM_THREADS=4"
    ∷ codes "OMP_NUM_THREADS=4"
    ∷ codes "OMP_NUM_THREADS=4"
    ∷ codes "OMP_NUM_THREADS=4"
    ∷ codes "OMP_NUM_THREADS=4"
    ∷ codes "OMP_NUM_THREADS=4"
    ∷ codes "OMP_NUM_THREADS=4"
    ∷ codes "OMP_NUM_THREADS=4"
    ∷ codes "OMP_NUM_THREADS=4"
    ∷ codes "OMP_NUM_THREADS=4"
    ∷ codes "OMP_NUM_THREADS=4"
    ∷ codes "a=b"
    ∷ codes "a=b"
    ∷ []

abbrev pub tables : Tables
tables = record { cmd = cmd; folder = folder; arg = arg; envs = envs }

-- `results.append((row[0], int(row[1])))`
unfoldable pub memory_row : List Text → Result (Text × ℤ)
unfolding parse_int
memory_row (name ∷ t ∷ cells) = do z ← or_raise value_error (parse_int t); ok (name, z)
memory_row _ = err index_error

unfoldable pub memory_rows : List (List Text) → Result (List (Text × ℤ))
unfolding memory_row
memory_rows [] = ok []
memory_rows (row ∷ rows) = do r ← memory_row row; rs ← memory_rows rows; ok (r ∷ rs)

-- `read_from_csv`, from the rows of the file.
unfoldable pub read_csv : List (List Text) → Result (List (Text × ℤ))
unfolding memory_rows
read_csv [] = err stop_iteration
read_csv (header ∷ rows) = memory_rows rows

-- The key of a workload in `plot`.
unfoldable pub label : Text → Text
unfolding remove_all strip
label workload = strip (
    remove_all
      (codes "OMP_NUM_THREADS="
        ∷ codes "-g20"
        ∷ codes "a=b"
        ∷ codes "./ORBvoc.txt, ./TUM3.yaml ./ ./associations/fr1_xyz.txt"
        ∷ codes "-n300"
        ∷ codes " -f "
        ∷ codes "-vn300"
        ∷ codes "maze-6404.txt"
        ∷ codes "stories110M.bin"
        ∷ codes ".aot"
        ∷ codes "-z tokenizer.bin -t 0.0"
        ∷ [])
      workload)

-- `workloads` of `plot`, whose values are the numbers of the rows divided by 1024 twice.
unfoldable pub plot_groups : {V : Type 0} → List (Text × V) → List (Text × List V)
unfolding label group_from
plot_groups rows = group_from [] (map (λ row. (label row.0, row.1)) rows)
