-- ===== src/Bench/Tiers.antt =====
-- artifact/common_util.py: runs that move a program between machines.
use anonymous_repo.Prelude.{ℕ, zero, suc, ◌+◌, List, [], ◌∷◌, ◌++◌, none}
use anonymous_repo.Text.Str.{Text, codes, split}
use anonymous_repo.Text.Number.{decimal}
use anonymous_repo.Bench.Host.{
  Host, Action, Output, printed, system, completed, ◌>>=◌, ◌>>◌, pure, emit, ask, decode_or_raw,
}
use anonymous_repo.Bench.Command.{pwd, trial, slowtier, burst, flags, exec_name}

-- `./bench/{aot_file}{i}.log`
unfoldable pub log_name : Text → ℕ → Text
log_name aot_file i = codes "./bench/" ++ (aot_file ++ (decimal i ++ codes ".log"))

-- `./MVVM_checkpoint …`, which writes to the log by `redirect`, in the background.
unfoldable pub logged_checkpoint : Text → List Text → Text → Text → Text → ℕ → Text
unfolding flags log_name
logged_checkpoint aot_file arg env extra1 redirect i =
    codes "./MVVM_checkpoint -t ./bench/"
    ++ (aot_file
        ++ codes " "
        ++ (flags arg
            ++ codes " -e "
            ++ (env
                ++ codes " "
                ++ (extra1
                    ++ codes " "
                    ++ (redirect ++ codes " " ++ (log_name aot_file i ++ codes " &"))))))

-- What `cat` of the log gives.
unfoldable pub read_log : Host → Text → List Text → Text → ℕ → Action (Text × Output)
unfolding log_name exec_name decode_or_raw
read_log h aot_file arg env i = do
  emit (completed (split (codes "cat " ++ log_name aot_file i)) none)
  out ← ask h.stdout
  let output = decode_or_raw h out
  let exec = exec_name env aot_file arg
  pure (exec, output)

unfoldable pub burst_restore : Text → Text → Text
unfolding burst
burst_restore aot_file extra2 =
    codes "script -f -q /dev/null -c 'ssh -t "
    ++ (burst
        ++ codes " ./MVVM_restore -t ./bench/"
        ++ (aot_file ++ codes " " ++ (extra2 ++ codes "' &")))

-- The body of the loop of `run_checkpoint_restore_burst_overhead`.
unfoldable pub burst_overhead_round :
    Host → Text → List Text → Text → Text → Text → ℕ → Action (Text × Output)
unfolding burst_restore logged_checkpoint read_log burst
burst_overhead_round h aot_file arg env extra1 extra2 i = do
  emit (system (burst_restore aot_file extra2))
  emit (printed (burst_restore aot_file extra2))
  emit (system (codes "sleep 40"))
  emit (system (logged_checkpoint aot_file arg env extra1 (codes ">") i))
  emit (printed (logged_checkpoint aot_file arg env extra1 (codes ">") i))
  emit (system (codes "sleep 20"))
  emit (system (codes "pkill -SIGINT -f MVVM_checkpoint"))
  emit (system (codes "sleep 60"))
  emit (system (codes "ssh " ++ (burst ++ codes " pkill -f MVVM_restore")))
  read_log h aot_file arg env i

-- `for i in range(trial)` with the number of the round and the rounds left.
unfoldable pub rounds_from :
    ℕ → ℕ → (ℕ → Action (Text × Output)) → List (Text × Output) → Action (List (Text × Output))
rounds_from i zero round res = pure res
rounds_from i (suc left) round res = do
  result ← round i
  rounds_from (i + 1) left round (res ++ result ∷ [])

unfoldable pub run_checkpoint_restore_burst_overhead :
    Host → Text → List Text → Text → Text → Text → Action (List (Text × Output))
unfolding rounds_from burst_overhead_round
run_checkpoint_restore_burst_overhead h aot_file arg env extra1 extra2 =
    rounds_from 0 trial (burst_overhead_round h aot_file arg env extra1 extra2) []

unfoldable pub slowtier_restore : Text → Text → Text
unfolding slowtier pwd
slowtier_restore aot_file extra2 =
    codes "ssh -t "
    ++ (slowtier
        ++ codes " "
        ++ (pwd
            ++ codes "/build/MVVM_restore -t "
            ++ (pwd ++ codes "/build/bench/" ++ (aot_file ++ codes " " ++ (extra2 ++ codes " &")))))

-- The body of the loop of `run_checkpoint_restore_slowtier_overhead`: the command that is printed
-- is not the one that is run.
unfoldable pub slowtier_overhead_round :
    Host → Text → List Text → Text → Text → Text → ℕ → Action (Text × Output)
unfolding slowtier_restore logged_checkpoint read_log slowtier
slowtier_overhead_round h aot_file arg env extra1 extra2 i = do
  emit (system (slowtier_restore aot_file extra2))
  emit (printed (slowtier_restore aot_file extra2))
  emit (system (codes "sleep 15"))
  emit (system (logged_checkpoint aot_file arg env extra1 (codes ">>") i))
  emit (printed (logged_checkpoint aot_file arg env extra1 (codes ">") i))
  emit (system (codes "sleep 10"))
  emit (system (codes "pkill -SIGINT -f MVVM_checkpoint"))
  emit (system (codes "ssh " ++ (slowtier ++ codes " pkill -f MVVM_restore")))
  emit (system (codes "sleep 5"))
  read_log h aot_file arg env i

unfoldable pub run_checkpoint_restore_slowtier_overhead :
    Host → Text → List Text → Text → Text → Text → Action (List (Text × Output))
unfolding rounds_from slowtier_overhead_round
run_checkpoint_restore_slowtier_overhead h aot_file arg env extra1 extra2 =
    rounds_from 0 trial (slowtier_overhead_round h aot_file arg env extra1 extra2) []

-- The commands of `run_checkpoint_restore_slowtier`, in their order.
unfoldable pub slowtier_script :
    Text → List Text → Text → List Text → Text → Text → Text → Text → List Text
unfolding slowtier pwd flags
slowtier_script aot_file arg aot_file1 arg1 env extra1 extra2 extra3 =
    codes "rm ./*.out"
    ∷ (codes "ssh -t " ++ (slowtier ++ codes " rm " ++ (pwd ++ codes "/build/*.out")))
    ∷ (codes "script -q /dev/null -c 'ssh -t "
        ++ (slowtier
            ++ codes " "
            ++ (pwd
                ++ codes "/build/MVVM_restore -t "
                ++ (pwd
                    ++ codes "/build/bench/"
                    ++ (aot_file1 ++ codes " " ++ (extra2 ++ codes "' >> MVVM_restore.1.out &"))))))
    ∷ (codes "ssh -t "
        ++ (slowtier
            ++ codes " "
            ++ (pwd ++ codes "/artifact/run_with_cpu_monitoring_nocommand.sh MVVM_restore &")))
    ∷ (codes "script -q /dev/null -c './MVVM_restore -t ./bench/"
        ++ (aot_file1 ++ codes " " ++ (extra3 ++ codes "' >> MVVM_restore.out &")))
    ∷ codes "../artifact/run_with_cpu_monitoring_nocommand.sh MVVM_restore &"
    ∷ codes "sleep 15"
    ∷ (codes "../artifact/run_with_cpu_monitoring.sh ./MVVM_checkpoint -t ./bench/"
        ++ (aot_file1
            ++ codes " "
            ++ (flags arg1 ++ codes " -e " ++ (env ++ codes " " ++ (extra1 ++ codes " &")))))
    ∷ codes "sleep 10"
    ∷ codes "pkill -SIGINT -f MVVM_checkpoint"
    ∷ codes "mv MVVM_checkpoint.out MVVM_checkpoint.1.out"
    ∷ codes "mv MVVM_checkpoint.ps.out MVVM_checkpoint.ps.1.out"
    ∷ (codes "../artifact/run_with_cpu_monitoring.sh ./MVVM_checkpoint -t ./bench/"
        ++ (aot_file ++ codes " " ++ (flags arg ++ codes " -e " ++ env)))
    ∷ (codes "ssh -t " ++ (slowtier ++ codes " pkill -SIGINT -f MVVM_restore"))
    ∷ codes "sleep 100"
    ∷ (codes "scp -r "
        ++ (slowtier
            ++ codes ":"
            ++ (pwd ++ codes "/build/MVVM_restore.ps.out ./MVVM_restore.ps.1.out")))
    ∷ []

-- `os.system` of each command.
unfoldable pub system_all : List Text → Action (Unit {0})
system_all [] = pure tt
system_all (cmd ∷ cmds) = do emit (system cmd); system_all cmds

unfoldable pub run_checkpoint_restore_slowtier :
    Host
    → Text
    → List Text
    → Text
    → List Text
    → Text
    → Text
    → Text
    → Text
    → Action (List (Text × Output))
unfolding slowtier_script system_all exec_name decode_or_raw
run_checkpoint_restore_slowtier h aot_file arg aot_file1 arg1 env extra1 extra2 extra3 = do
  system_all (slowtier_script aot_file arg aot_file1 arg1 env extra1 extra2 extra3)
  let cmd =
      codes
        "cat ./MVVM_checkpoint.out ./MVVM_checkpoint.1.out ./MVVM_restore.1.out ./MVVM_restore.out"
  emit (completed (split cmd) none)
  out ← ask h.stdout
  let output = decode_or_raw h out
  let exec = exec_name env aot_file arg
  pure ((exec, output) ∷ [])
