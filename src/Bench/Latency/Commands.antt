-- ===== src/Bench/Latency/Commands.antt =====
-- artifact/ckpt_restore_latency.py: the tables of the runs.
use anonymous_repo.Prelude.{List, [], ◌∷◌}
use anonymous_repo.Text.Str.{Text, codes}
use anonymous_repo.Bench.Compare.Jobs.{Tables}

unfoldable pub cmd : List Text
cmd =
    codes "linpack"
    ∷ codes "llama"
    ∷ codes "rgbd_tum"
    ∷ codes "bfs"
    ∷ codes "bc"
    ∷ codes "bfs"
    ∷ codes "cc"
    ∷ codes "cc_sv"
    ∷ codes "pr"
    ∷ codes "pr_spmv"
    ∷ codes "sssp"
    ∷ codes "tc"
    ∷ codes "bt"
    ∷ codes "cg"
    ∷ codes "ep"
    ∷ codes "ft"
    ∷ codes "lu"
    ∷ codes "mg"
    ∷ codes "sp"
    ∷ codes "redis"
    ∷ codes "hdastar"
    ∷ []

unfoldable pub folder : List Text
folder =
    codes "linpack"
    ∷ codes "llama"
    ∷ codes "ORB_SLAM2"
    ∷ codes "gapbs"
    ∷ codes "gapbs"
    ∷ codes "gapbs"
    ∷ codes "gapbs"
    ∷ codes "gapbs"
    ∷ codes "gapbs"
    ∷ codes "gapbs"
    ∷ codes "gapbs"
    ∷ codes "gapbs"
    ∷ codes "nas"
    ∷ codes "nas"
    ∷ codes "nas"
    ∷ codes "nas"
    ∷ codes "nas"
    ∷ codes "nas"
    ∷ codes "nas"
    ∷ codes "redis"
    ∷ codes "hdastar"
    ∷ []

unfoldable pub arg : List (List Text)
arg =
    []
    ∷ (codes "stories110M.bin" ∷ codes "-z" ∷ codes "tokenizer.bin" ∷ codes "-t" ∷ codes "0.0" ∷ [])
    ∷ (codes "./ORBvoc.txt"
        ∷ codes "./TUM3.yaml"
        ∷ codes "./"
        ∷ codes "./associations/fr1_xyz.txt"
        ∷ [])
    ∷ (codes "-f" ∷ codes "./road.sg" ∷ codes "-n300" ∷ [])
    ∷ (codes "-g20" ∷ codes "-vn300" ∷ [])
    ∷ (codes "-g20" ∷ codes "-vn300" ∷ [])
    ∷ (codes "-f" ∷ codes "./road.sg" ∷ codes "-n300" ∷ [])
    ∷ (codes "-g20" ∷ codes "-vn300" ∷ [])
    ∷ (codes "-g20" ∷ codes "-vn300" ∷ [])
    ∷ (codes "-g20" ∷ codes "-vn300" ∷ [])
    ∷ (codes "-g20" ∷ codes "-vn300" ∷ [])
    ∷ (codes "-g20" ∷ codes "-n300" ∷ [])
    ∷ []
    ∷ []
    ∷ []
    ∷ []
    ∷ []
    ∷ []
    ∷ []
    ∷ []
    ∷ (codes "maze-6404.txt" ∷ codes "8" ∷ [])
    ∷ []

unfoldable pub envs : List Text
envs =
    codes "a=b"
    ∷ codes "OMP_NUM_THREADS=4"
    ∷ codes "a=b"
    ∷ codes "OMP_NUM_THREADS=4"
    ∷ codes "OMP_NUM_THREADS=4"
    ∷ codes "OMP_NUM_THREADS=4"
    ∷ codes "OMP_NUM_THREADS=4"
    ∷ codes "OMP_NUM_THREADS=4"
    ∷ codes "OMP_NUM_THREADS=4"
    ∷ codes "OMP_NUM_THREADS=4"
    ∷ codes "OMP_NUM_THREADS=4"
    ∷ codes "OMP_NUM_THREADS=4"
    ∷ codes "OMP_NUM_THREADS=4"
    ∷ codes "OMP_NUM_THREADS=4"
    ∷ codes "OMP_NUM_THREADS=4"
    ∷ codes "OMP_NUM_THREADS=4"
    ∷ codes "OMP_NUM_THREADS=4"
    ∷ codes "OMP_NUM_THREADS=4"
    ∷ codes "OMP_NUM_THREADS=4"
    ∷ codes "a=b"
    ∷ codes "a=b"
    ∷ []

abbrev pub tables : Tables
tables = record { cmd = cmd; folder = folder; arg = arg; envs = envs }
