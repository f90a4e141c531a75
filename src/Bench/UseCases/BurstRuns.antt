-- ===== src/Bench/UseCases/BurstRuns.antt =====
-- artifact/usecase_burst_computing.py: the runs over several machines.
use anonymous_repo.Prelude.{List, [], ◌∷◌, none, some, ◌++◌, index_error}
use anonymous_repo.Text.Str.{Text, codes}
use anonymous_repo.Bench.Command.{trial}
use anonymous_repo.Bench.Compare.Rows.{mvvm_time, rows_per_run, rows_per_line}
use anonymous_repo.Bench.Host.{Host, Action, ◌>>=◌, Output, fail, pure}
use anonymous_repo.Bench.Run.{run_burst}
use anonymous_repo.Bench.Compare.Turns.{mvvm_turns, trials_of, computed}
use anonymous_repo.Bench.Tiers.{run_checkpoint_restore_burst_overhead}
use anonymous_repo.Bench.Burst.{run_checkpoint_restore_burst}
use anonymous_repo.Bench.UseCases.BurstComputing.{cmd, arg, envs}

abbrev pub ip0 : Text
ip0 = codes "128.114.53.32"

abbrev pub ip1 : Text
ip1 = codes "128.114.59.134"

abbrev pub port : Text
port = codes "12347"

abbrev pub port2 : Text
port2 = codes "12346"

abbrev pub new_port : Text
new_port = codes "1235"

abbrev pub new_port1 : Text
new_port1 = codes "1238"

abbrev pub new_port2 : Text
new_port2 = codes "1236"

abbrev pub new_port12 : Text
new_port12 = codes "14440"

-- `f"-o {ip} -s {port}"` and `f"-i {ip} -e {port}"`

abbrev pub out_to : Text → Text → Text
out_to ip p = codes "-o " ++ (ip ++ (codes " -s " ++ p))

abbrev pub in_from : Text → Text → Text
in_from ip p = codes "-i " ++ (ip ++ (codes " -e " ++ p))

module _ (h : Host) where
  unfoldable pub get_edge_result : Action (List (Text × Text))
  unfolding cmd arg envs run_burst
  get_edge_result =
      trials_of (mvvm_turns (λ f a e. run_burst h f a e []) cmd arg envs) trial >>= λ results1.
      computed (rows_per_run (codes "Execution time:") mvvm_time results1 (some []))

  -- `for i in range(len(cmd))` of `get_snapshot_overhead`
  unfoldable pub snapshot_turns :
      List Text → List (List Text) → List Text → Action (List (Text × Text))
  unfolding run_checkpoint_restore_burst_overhead
  snapshot_turns [] args settings = pure []
  snapshot_turns (c ∷ cmds) (a ∷ args) (e ∷ settings) =
      run_checkpoint_restore_burst_overhead h (c ++ codes ".aot") a e (out_to ip1 port)
        (in_from ip1 port)
      >>= λ results1.
          computed (rows_per_line (codes "Snapshot time:") mvvm_time results1 none) >>= λ rows.
          snapshot_turns cmds args settings >>= λ more. pure (rows ++ more)
  snapshot_turns (c ∷ cmds) _ _ = fail index_error

  unfoldable pub get_snapshot_overhead : Action (List (Text × Text))
  unfolding cmd arg envs snapshot_turns
  get_snapshot_overhead = snapshot_turns cmd arg envs

  -- `cmd[0]` and `cmd[1]` with their arguments, and `envs[0]`.
  unfoldable pub get_burst_compute : Action (List (Text × Output))
  unfolding run_checkpoint_restore_burst
  get_burst_compute =
      run_checkpoint_restore_burst h (codes "redis.aot") [] (codes "rgbd_tum.aot")
        (codes "./ORBvoc.txt"
          ∷ codes "./TUM3.yaml"
          ∷ codes "./"
          ∷ codes "./associations/fr3_office_val.txt"
          ∷ [])
        (codes "OMP_NUM_THREADS=1") (out_to ip1 port)
        (in_from ip1 port ++ (codes " " ++ out_to ip0 new_port))
        (in_from ip0 new_port ++ (codes " " ++ out_to ip1 new_port1))
        (in_from ip1 new_port1 ++ (codes " " ++ out_to ip0 port)) (in_from ip0 port)
        (out_to ip0 port2) (in_from ip0 port2 ++ (codes " " ++ out_to ip1 new_port2))
        (in_from ip1 new_port2 ++ (codes " " ++ out_to ip0 new_port12)) (in_from ip0 new_port12)
