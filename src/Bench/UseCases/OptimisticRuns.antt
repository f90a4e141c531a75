-- ===== src/Bench/UseCases/OptimisticRuns.antt =====
-- artifact/usecase_optimistic_computing.py: the runs over several machines.
use anonymous_repo.Prelude.{List, [], ◌∷◌, Option, none, some, ◌++◌, index_error, zero, suc, ℕ}
use anonymous_repo.Text.Str.{Text, codes}
use anonymous_repo.Bench.Command.{trial}
use anonymous_repo.Bench.Compare.Rows.{mvvm_time, rows_per_run}
use anonymous_repo.Bench.Host.{Host, Action, ◌>>=◌, Output, fail, pure}
use anonymous_repo.Bench.Compare.Turns.{computed}
use anonymous_repo.Bench.Tiers.{
  run_checkpoint_restore_slowtier_overhead, run_checkpoint_restore_slowtier,
}
use anonymous_repo.Bench.UseCases.OptimisticComputing.{cmd, arg, envs}

abbrev pub ip0 : Text
ip0 = codes "128.114.53.32"

abbrev pub ip1 : Text
ip1 = codes "128.114.59.234"

abbrev pub port : Text
port = codes "12346"

abbrev pub new_port : Text
new_port = codes "12353"

-- `f"-o {ip} -s {port}"` and `f"-i {ip} -e {port}"`

abbrev pub out_to : Text → Text → Text
out_to ip p = codes "-o " ++ (ip ++ (codes " -s " ++ p))

abbrev pub in_from : Text → Text → Text
in_from ip p = codes "-i " ++ (ip ++ (codes " -e " ++ p))

-- `exec_time` behind the loop that has made the rows.
unfoldable pub time_after : List (Text × Text) → Option Text → Option Text
time_after [] exec_time = exec_time
time_after (row ∷ rows) exec_time = time_after rows (some row.1)

module _ (h : Host) where
  -- `for i in range(len(cmd))` of `get_snapshot_overhead`, with `exec_time` before and after it.
  unfoldable pub snapshot_turns :
      List Text
      → List (List Text)
      → List Text
      → Option Text
      → Action (Option Text × List (Text × Text))
  unfolding run_checkpoint_restore_slowtier_overhead time_after
  snapshot_turns [] args settings exec_time = pure (exec_time, [])
  snapshot_turns (c ∷ cmds) (a ∷ args) (e ∷ settings) exec_time =
      run_checkpoint_restore_slowtier_overhead h (c ++ codes ".aot") a e (out_to ip1 port)
        (in_from ip1 port)
      >>= λ results1.
          computed (rows_per_run (codes "Snapshot time:") mvvm_time results1 exec_time) >>= λ rows.
          snapshot_turns cmds args settings (time_after rows exec_time) >>= λ more.
          pure (more.0, rows ++ more.1)
  snapshot_turns (c ∷ cmds) _ _ exec_time = fail index_error

  -- `for _ in range(common_util.trial)`
  unfoldable pub snapshot_trials : ℕ → Option Text → Action (List (Text × Text))
  unfolding cmd arg envs snapshot_turns
  snapshot_trials zero exec_time = pure []
  snapshot_trials (suc trials) exec_time = snapshot_turns cmd arg envs exec_time >>= λ now.
      snapshot_trials trials now.0 >>= λ more. pure (now.1 ++ more)

  unfoldable pub get_snapshot_overhead : Action (List (Text × Text))
  unfolding snapshot_trials
  get_snapshot_overhead = snapshot_trials trial none

  -- `cmd[0]` and `cmd[1]` with their arguments, and `envs[0]`.
  unfoldable pub get_optimiztic_compute_overhead : Action (List (Text × Output))
  unfolding run_checkpoint_restore_slowtier
  get_optimiztic_compute_overhead =
      run_checkpoint_restore_slowtier h (codes "bc.aot") (codes "-g10" ∷ codes "-n100000" ∷ [])
        (codes "bfs.aot") (codes "-g10" ∷ codes "-n1000000" ∷ []) (codes "OMP_NUM_THREADS=1")
        (out_to ip1 port) (in_from ip1 port ++ (codes " " ++ out_to ip0 new_port))
        (in_from ip0 new_port)
