-- ===== src/Bench/Tables.antt =====
-- artifact/bench_policy.py and bench_policy_multithread.py: the tables of the runs.
use anonymous_repo.Prelude.{List, [], ◌∷◌}
use anonymous_repo.Text.Str.{Text, codes}

unfoldable pub cmd : List Text
cmd =
    codes "llama"
    ∷ codes "bc"
    ∷ codes "bfs"
    ∷ codes "cc"
    ∷ codes "cc_sv"
    ∷ codes "pr"
    ∷ codes "pr_spmv"
    ∷ codes "sssp"
    ∷ codes "tc"
    ∷ codes "bt"
    ∷ codes "cg"
    ∷ codes "ep"
    ∷ codes "ft"
    ∷ codes "lu"
    ∷ codes "mg"
    ∷ codes "sp"
    ∷ codes "redis"
    ∷ codes "hdastar"
    ∷ []

unfoldable pub folder : List Text
folder =
    codes "llama"
    ∷ codes "gapbs"
    ∷ codes "gapbs"
    ∷ codes "gapbs"
    ∷ codes "gapbs"
    ∷ codes "gapbs"
    ∷ codes "gapbs"
    ∷ codes "gapbs"
    ∷ codes "gapbs"
    ∷ codes "nas"
    ∷ codes "nas"
    ∷ codes "nas"
    ∷ codes "nas"
    ∷ codes "nas"
    ∷ codes "nas"
    ∷ codes "nas"
    ∷ codes "redis"
    ∷ codes "hdastar"
    ∷ []

unfoldable pub arg : List (List Text)
arg =
    (codes "stories110M.bin" ∷ codes "-z" ∷ codes "tokenizer.bin" ∷ codes "-t" ∷ codes "0.0" ∷ [])
    ∷ (codes "-g20" ∷ codes "-vn300" ∷ [])
    ∷ (codes "-g20" ∷ codes "-vn300" ∷ [])
    ∷ (codes "-g20" ∷ codes "-vn300" ∷ [])
    ∷ (codes "-g20" ∷ codes "-vn300" ∷ [])
    ∷ (codes "-g20" ∷ codes "-vn300" ∷ [])
    ∷ (codes "-g20" ∷ codes "-vn300" ∷ [])
    ∷ (codes "-g20" ∷ codes "-vn300" ∷ [])
    ∷ (codes "-g20" ∷ codes "-n1" ∷ [])
    ∷ []
    ∷ []
    ∷ []
    ∷ []
    ∷ []
    ∷ []
    ∷ []
    ∷ []
    ∷ (codes "maze-6404.txt" ∷ codes "8" ∷ [])
    ∷ []

unfoldable pub envs : List Text
envs =
    codes "OMP_NUM_THREADS=1"
    ∷ codes "OMP_NUM_THREADS=1"
    ∷ codes "OMP_NUM_THREADS=1"
    ∷ codes "OMP_NUM_THREADS=1"
    ∷ codes "OMP_NUM_THREADS=1"
    ∷ codes "OMP_NUM_THREADS=1"
    ∷ codes "OMP_NUM_THREADS=1"
    ∷ codes "OMP_NUM_THREADS=1"
    ∷ codes "OMP_NUM_THREADS=1"
    ∷ codes "OMP_NUM_THREADS=1"
    ∷ codes "OMP_NUM_THREADS=1"
    ∷ codes "OMP_NUM_THREADS=1"
    ∷ codes "OMP_NUM_THREADS=1"
    ∷ codes "OMP_NUM_THREADS=1"
    ∷ codes "OMP_NUM_THREADS=1"
    ∷ codes "OMP_NUM_THREADS=1"
    ∷ codes "OMP_NUM_THREADS=1"
    ∷ codes "a=b"
    ∷ codes "a=b"
    ∷ []

unfoldable pub multithread_envs : List Text
multithread_envs =
    codes "OMP_NUM_THREADS=4"
    ∷ codes "OMP_NUM_THREADS=4"
    ∷ codes "OMP_NUM_THREADS=4"
    ∷ codes "OMP_NUM_THREADS=4"
    ∷ codes "OMP_NUM_THREADS=4"
    ∷ codes "OMP_NUM_THREADS=4"
    ∷ codes "OMP_NUM_THREADS=4"
    ∷ codes "OMP_NUM_THREADS=4"
    ∷ codes "OMP_NUM_THREADS=4"
    ∷ codes "OMP_NUM_THREADS=4"
    ∷ codes "OMP_NUM_THREADS=4"
    ∷ codes "OMP_NUM_THREADS=4"
    ∷ codes "OMP_NUM_THREADS=4"
    ∷ codes "OMP_NUM_THREADS=4"
    ∷ codes "OMP_NUM_THREADS=4"
    ∷ codes "OMP_NUM_THREADS=4"
    ∷ codes "OMP_NUM_THREADS=4"
    ∷ codes "a=b"
    ∷ codes "a=b"
    ∷ []
