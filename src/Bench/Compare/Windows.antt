-- ===== src/Bench/Compare/Windows.antt =====
-- artifact/bench_windows.py.
use anonymous_repo.Prelude.{◌-◌, ltb, index_error, if◌then◌else◌, List, [], ◌∷◌, none, Result, map}
use anonymous_repo.Text.Str.{Text, codes, strip}
use anonymous_repo.Bench.Compare.Jobs.{Tables, csv_rows, remove_all}
use anonymous_repo.Bench.Host.{Host, Action, ◌>>=◌, ◌>>◌, Output, ask, emit, pure, fail, printed}
use anonymous_repo.Bench.Command.{trial}
use anonymous_repo.Bench.Run
use anonymous_repo.Bench.Run.{run}
use anonymous_repo.Bench.Compare.Turns.{mvvm_turns, trials_of, computed}
use anonymous_repo.Bench.Compare.Rows.{mvvm_time_words, rows_per_line}
use anonymous_repo.Bench.Averages.{group_from}

unfoldable pub cmd : List Text
cmd =
    codes "linpack"
    ∷ codes "llama"
    ∷ codes "rgbd_tum"
    ∷ codes "bt"
    ∷ codes "cg"
    ∷ codes "ep"
    ∷ codes "ft"
    ∷ codes "lu"
    ∷ codes "mg"
    ∷ codes "sp"
    ∷ codes "redis"
    ∷ []

unfoldable pub folder : List Text
folder =
    codes "linpack"
    ∷ codes "llama"
    ∷ codes "ORB_SLAM2"
    ∷ codes "nas"
    ∷ codes "nas"
    ∷ codes "nas"
    ∷ codes "nas"
    ∷ codes "nas"
    ∷ codes "nas"
    ∷ codes "nas"
    ∷ codes "redis"
    ∷ []

unfoldable pub arg : List (List Text)
arg =
    []
    ∷ (codes "stories110M.bin" ∷ codes "-z" ∷ codes "tokenizer.bin" ∷ codes "-t" ∷ codes "0.0" ∷ [])
    ∷ (codes "./ORBvoc.txt"
        ∷ codes "./TUM3.yaml"
        ∷ codes "./"
        ∷ codes "./associations/fr1_xyz.txt"
        ∷ [])
    ∷ []
    ∷ []
    ∷ []
    ∷ []
    ∷ []
    ∷ []
    ∷ []
    ∷ []
    ∷ []

unfoldable pub envs : List Text
envs =
    codes "a=b"
    ∷ codes "OMP_NUM_THREADS=1"
    ∷ codes "a=b"
    ∷ codes "OMP_NUM_THREADS=1"
    ∷ codes "OMP_NUM_THREADS=1"
    ∷ codes "OMP_NUM_THREADS=1"
    ∷ codes "OMP_NUM_THREADS=1"
    ∷ codes "OMP_NUM_THREADS=1"
    ∷ codes "OMP_NUM_THREADS=1"
    ∷ codes "OMP_NUM_THREADS=1"
    ∷ codes "a=b"
    ∷ []

abbrev pub tables : Tables
tables = record { cmd = cmd; folder = folder; arg = arg; envs = envs }

module _ (h : Host) where
  unfoldable pub run_mvvm : Action (List (Text × Text))
  unfolding cmd arg envs run
  run_mvvm = do
    results1 ← trials_of (mvvm_turns (λ f a e. run h f a e []) cmd arg envs) trial
    computed (rows_per_line (codes "Execution time:") mvvm_time_words results1 none)

  -- One run in a pool of one worker: `future.result(timeout=100)` raises TimeoutError, which is printed,
  -- if it takes more than 100 seconds. The run goes on, and the end of `with` waits for it.
  unfoldable pub run_submitted : Text → Text → List Text → Text → Action (Text × Output)
  unfolding Run.run_native
  run_submitted aot f a e = do
    submitted ← ask h.now
    output ← Run.run_native h aot f a e
    finished ← ask h.now
    (if ltb 100000 (finished - submitted)
        then emit (printed (codes "Operation timed out"))
        else pure tt)
    pure output

  -- `for i in range(len(cmd))`
  unfoldable pub submitted_turns :
      List Text → List Text → List (List Text) → List Text → Action (List (Text × Output))
  unfolding run_submitted
  submitted_turns [] folders args environments = pure []
  submitted_turns (c ∷ cmds) (f ∷ folders) (a ∷ args) (e ∷ environments) = do
    output ← run_submitted c f a e
    outputs ← submitted_turns cmds folders args environments
    pure (output ∷ outputs)
  submitted_turns (c ∷ cmds) _ _ _ = fail index_error

  -- `results` has the names with the whole outputs. The list `results1` stays empty, so that the
  -- loop over it has no round.
  unfoldable pub run_native : Action (List (Text × Output))
  unfolding cmd folder arg envs submitted_turns
  run_native = trials_of (submitted_turns cmd folder arg envs) trial

-- `write_to_csv`: the rows behind the header.
unfoldable pub csv :
    {T V : Type 0} → List (Text × T) → List (Text × V) → Result (List (Text × T × List V))
unfolding csv_rows
csv mvvm_results native_results = csv_rows 0 mvvm_results (native_results ∷ [])

-- The key of a workload in `plot`.
unfoldable pub label : Text → Text
unfolding remove_all strip
label workload = strip (
    remove_all
      (codes "OMP_NUM_THREADS="
        ∷ codes "-g15"
        ∷ codes "-n300"
        ∷ codes " -f "
        ∷ codes "-vn300"
        ∷ codes "maze-6404.txt"
        ∷ codes "stories110M.bin"
        ∷ codes "-z tokenizer.bin -t 0.0"
        ∷ codes "ORBvoc.txt"
        ∷ codes "TUM3.yaml"
        ∷ codes "./associations/fr1_xyz.txt"
        ∷ codes "./"
        ∷ [])
      workload)

-- `workloads` of `plot`.
unfoldable pub plot_groups : {V : Type 0} → List (Text × V) → List (Text × List V)
unfolding label group_from
plot_groups rows = group_from [] (map (λ row. (label row.0, row.1)) rows)
