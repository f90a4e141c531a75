-- ===== src/Bench/LoopCounter.antt =====
-- artifact/bench_loop_counter.py: `run_mvvm` and `run_mvvm_snapshot`, and their tables.
use anonymous_repo.Prelude.{
  ℕ, zero, suc, Bool, ◌&&◌, not, Option, none, some, List, [], ◌∷◌, ◌++◌, map, Result, ok, err,
  ◌>>=◌, type_error, if◌then◌else◌,
}
use anonymous_repo.Text.Str.{Text, codes, text_eq, split_on}
use anonymous_repo.Text.Edit.{is_in}
use anonymous_repo.Bench.Host.{Output, str, raw}
use anonymous_repo.Bench.Command.{aot_variant_freq}
use anonymous_repo.Bench.Policy.{scan_lines}

unfoldable pub cmd : List Text
cmd =
    codes "llama"
    ∷ codes "bc"
    ∷ codes "bfs"
    ∷ codes "cc"
    ∷ codes "cc_sv"
    ∷ codes "pr"
    ∷ codes "pr_spmv"
    ∷ codes "sssp"
    ∷ codes "tc"
    ∷ codes "bt"
    ∷ codes "cg"
    ∷ codes "ep"
    ∷ codes "ft"
    ∷ codes "lu"
    ∷ codes "mg"
    ∷ codes "sp"
    ∷ codes "redis"
    ∷ []

unfoldable pub folder : List Text
folder =
    codes "llama"
    ∷ codes "gapbs"
    ∷ codes "gapbs"
    ∷ codes "gapbs"
    ∷ codes "gapbs"
    ∷ codes "gapbs"
    ∷ codes "gapbs"
    ∷ codes "gapbs"
    ∷ codes "gapbs"
    ∷ codes "nas"
    ∷ codes "nas"
    ∷ codes "nas"
    ∷ codes "nas"
    ∷ codes "nas"
    ∷ codes "nas"
    ∷ codes "nas"
    ∷ codes "redis"
    ∷ []

unfoldable pub arg : List (List Text)
arg =
    (codes "stories110M.bin" ∷ codes "-z" ∷ codes "tokenizer.bin" ∷ codes "-t" ∷ codes "0.0" ∷ [])
    ∷ (codes "-g20" ∷ codes "-vn300" ∷ [])
    ∷ (codes "-g20" ∷ codes "-vn300" ∷ [])
    ∷ (codes "-g20" ∷ codes "-vn300" ∷ [])
    ∷ (codes "-g20" ∷ codes "-vn300" ∷ [])
    ∷ (codes "-g20" ∷ codes "-vn300" ∷ [])
    ∷ (codes "-g20" ∷ codes "-vn300" ∷ [])
    ∷ (codes "-g20" ∷ codes "-vn300" ∷ [])
    ∷ (codes "-g20" ∷ codes "-n1" ∷ [])
    ∷ []
    ∷ []
    ∷ []
    ∷ []
    ∷ []
    ∷ []
    ∷ []
    ∷ []
    ∷ []

unfoldable pub envs : List Text
envs =
    codes "OMP_NUM_THREADS=1"
    ∷ codes "OMP_NUM_THREADS=1"
    ∷ codes "OMP_NUM_THREADS=1"
    ∷ codes "OMP_NUM_THREADS=1"
    ∷ codes "OMP_NUM_THREADS=1"
    ∷ codes "OMP_NUM_THREADS=1"
    ∷ codes "OMP_NUM_THREADS=1"
    ∷ codes "OMP_NUM_THREADS=1"
    ∷ codes "OMP_NUM_THREADS=1"
    ∷ codes "OMP_NUM_THREADS=1"
    ∷ codes "OMP_NUM_THREADS=1"
    ∷ codes "OMP_NUM_THREADS=1"
    ∷ codes "OMP_NUM_THREADS=1"
    ∷ codes "OMP_NUM_THREADS=1"
    ∷ codes "OMP_NUM_THREADS=1"
    ∷ codes "OMP_NUM_THREADS=1"
    ∷ codes "OMP_NUM_THREADS=1"
    ∷ codes "a=b"
    ∷ []

-- `results[i].append(t)`, for an index in range.
unfoldable pub append_at : ℕ → Text → List (List Text) → List (List Text)
append_at i t [] = []
append_at zero t (r ∷ rs) = (r ++ t ∷ []) ∷ rs
append_at (suc i) t (r ∷ rs) = r ∷ append_at i t rs

unfoldable pub is_plain : Text → Bool
unfolding is_in
is_plain exec =
    not (is_in (codes "-ckpt-loop-counter-1.aot") exec)
    && not (is_in (codes "-ckpt-loop-counter-4.aot") exec)
    && not (is_in (codes "-ckpt-loop-counter-8.aot") exec)
    && not (is_in (codes "-ckpt-loop-counter-16.aot") exec)
    && not (is_in (codes "-ckpt-loop-counter-20.aot") exec)
    && not (is_in (codes "-ckpt-loop-counter-30.aot") exec)
    && not (is_in (codes "-ckpt-loop-pgo.aot") exec)
    && not (is_in (codes "-pure.aot") exec)

-- The branches for one variant `a`, over `name` and `results`.
unfoldable pub classify :
    Text → Text → Text → List Text × List (List Text) → List Text × List (List Text)
unfolding append_at is_plain text_eq
classify exec exec_time a (name, results) =
    if text_eq a (codes "-ckpt-loop-counter-1.aot")
    then (name, append_at 0 exec_time results)
    else if text_eq a (codes "-ckpt-loop-counter-4.aot")
    then (name, append_at 1 exec_time results)
    else if text_eq a (codes "-ckpt-loop-counter-8.aot")
    then (name, append_at 2 exec_time results)
    else if text_eq a (codes "-ckpt-loop-counter-16.aot")
    then (name, append_at 3 exec_time results)
    else if text_eq a (codes "-ckpt-loop-counter-20.aot")
    then (name, append_at 4 exec_time results)
    else if text_eq a (codes "-ckpt-loop-counter-30.aot")
    then (name, append_at 5 exec_time results)
    else if text_eq a (codes "-ckpt-loop-pgo.aot")
    then (name, append_at 6 exec_time results)
    else if text_eq a (codes "-pure.aot")
    then (name, append_at 8 exec_time results)
    else if text_eq a (codes ".aot") && is_plain exec
    then (name ++ exec ∷ [], append_at 7 exec_time results)
    else (name, results)

-- `for a in common_util.aot_variant_freq`
unfoldable pub classify_all :
    Text → Text → List Text → List Text × List (List Text) → List Text × List (List Text)
unfolding is_in classify
classify_all exec exec_time [] b = b
classify_all exec exec_time (a ∷ variants) b =
    classify_all exec exec_time variants (if is_in a exec then classify exec exec_time a b else b)

-- `for exec, output in results1`, with the mark of the lines that hold a time.
unfoldable pub collect :
    Text
    → List (Text × Output)
    → Text
    → List Text × List (List Text)
    → Result (List Text × List (List Text))
unfolding scan_lines classify_all aot_variant_freq split_on
collect mark [] exec_time b = ok b
collect mark ((exec, raw bytes) ∷ rest) exec_time b = err type_error
collect mark ((exec, str output) ∷ rest) exec_time b = do
  exec_time' ← scan_lines mark (split_on 10 output) exec_time
  collect mark rest exec_time' (classify_all exec exec_time' aot_variant_freq b)

-- The first elements of lists that all have one.
unfoldable pub heads : List (List Text) → Option (List Text)
heads [] = some []
heads ([] ∷ rs) = none
heads ((t ∷ r) ∷ rs) = elim (heads rs) [ none ↦ none | some ts ↦ some (t ∷ ts) ]

unfoldable pub tails : List (List Text) → List (List Text)
tails [] = []
tails ([] ∷ rs) = [] ∷ tails rs
tails ((t ∷ r) ∷ rs) = r ∷ tails rs

-- `zip(name, *results)`
unfoldable pub zip_names : List Text → List (List Text) → List (List Text)
unfolding heads tails
zip_names [] results = []
zip_names (n ∷ name) results =
    let rest = zip_names name (tails results) in
    elim (heads results) [ none ↦ [] | some ts ↦ (n ∷ ts) ∷ rest ]

-- `[[] for _ in range(len(aot_variant_freq))]`
unfoldable pub no_results : List (List Text)
unfolding aot_variant_freq
no_results = map (λ v. []) aot_variant_freq

-- `run_mvvm` after the runs have been awaited, from their results in the order of submission.
unfoldable pub freq_rows : List (Text × Output) → Result (List (List Text))
unfolding collect zip_names no_results
freq_rows results1 = do
  (name, results) ← collect (codes "Execution time:") results1 [] ([], no_results)
  ok (zip_names name results)

-- `run_mvvm_snapshot`, the same way.
unfoldable pub snapshot_rows : List (Text × Output) → Result (List (List Text))
unfolding collect zip_names no_results
snapshot_rows results1 = do
  (name, results) ← collect (codes "Snapshot Overhead:") results1 [] ([], no_results)
  ok (zip_names name results)
