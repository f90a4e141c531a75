-- ===== src/Bench/Migrate.antt =====
-- artifact/common_util.py: checkpoint and restore of one program by MVVM, by CRIU and by QEMU.
use anonymous_repo.Prelude.{ℕ, zero, suc, List, [], ◌∷◌, ◌++◌, none, some}
use anonymous_repo.Text.Str.{Text, codes, split}
use anonymous_repo.Text.Number.{decimal}
use anonymous_repo.Bench.Host.{
  Host, Action, Output, printed, system, slept, completed, started, ◌>>=◌, ◌>>◌, pure, emit, ask,
  decode_or_raise, decode_or_raw, communicate,
}
use anonymous_repo.Bench.Command.{pwd, trial, flags, spaced, exec_name, native_name, env_arg}
use anonymous_repo.Bench.Reap.{reap}

-- `cmd` of `run_checkpoint`
unfoldable pub run_checkpoint_command : Text → List Text → Text → Text
unfolding flags
run_checkpoint_command aot_file arg env =
    codes "./MVVM_checkpoint -t ./bench/"
    ++ (aot_file ++ codes " " ++ (flags arg ++ codes " -e " ++ (env ++ codes " -c 100000")))

unfoldable pub run_checkpoint : Host → Text → List Text → Text → Action (Text × Text)
unfolding run_checkpoint_command exec_name decode_or_raise
run_checkpoint h aot_file arg env = do
  let cmd = run_checkpoint_command aot_file arg env
  emit (printed cmd)
  emit (completed (split cmd) none)
  out ← ask h.stdout
  output ← decode_or_raise h out
  let exec = exec_name env aot_file arg
  pure (exec, output)

unfoldable pub run_restore : Host → Text → List Text → Text → Action (Text × Text)
unfolding exec_name communicate reap
run_restore h aot_file arg env = do
  let cmd = codes "./MVVM_restore -t ./bench/" ++ aot_file
  emit (printed cmd)
  emit (started (split cmd) none)
  reap h
  (output, errors) ← communicate h
  let exec = exec_name env aot_file arg
  pure (exec, output)

-- `for _ in range(trial)` over a checkpoint and a restore: the name in the last checkpoint's
-- result, and what the two wrote in each round.
unfoldable pub trials_from :
    ℕ → Action (Text × Text) → Action (Text × Text) → Text → List Text → Action (Text × List Text)
trials_from zero checkpoint restore name res = pure (name, res)
trials_from (suc rounds) checkpoint restore name res = do
  checkpoint_result ← checkpoint
  restore_result ← restore
  trials_from rounds checkpoint restore checkpoint_result.0
      (res ++ (checkpoint_result.1 ++ restore_result.1) ∷ [])

unfoldable pub run_checkpoint_restore : Host → Text → List Text → Text → Action (Text × List Text)
unfolding trials_from run_checkpoint run_restore
run_checkpoint_restore h aot_file arg env =
    trials_from trial (run_checkpoint h aot_file arg env) (run_restore h aot_file arg env) [] []

-- `run_subprocess`: the program runs on, and its number is the result.
unfoldable pub run_subprocess : Host → List Text → Text × Text → Action ℕ
run_subprocess h cmd env = do emit (started cmd (some env)); ask h.pid

-- `/tmp/{file}{env}`
unfoldable pub image_folder : Text → Text → Text
image_folder file env = codes "/tmp/" ++ (file ++ env)

-- `cmd` of `run_criu_checkpoint`
unfoldable pub run_criu_command : Text → Text → List Text → Text
unfolding pwd spaced native_name
run_criu_command aot_file folder arg =
    pwd
    ++ (codes "/bench/"
        ++ (folder ++ codes "/build/" ++ (native_name aot_file ++ codes " " ++ spaced arg)))

-- `criu_cmd`
unfoldable pub criu_dump_command : ℕ → Text → Text → Text
unfolding image_folder
criu_dump_command pid file env =
    codes "/usr/sbin/criu dump -t "
    ++ (decimal pid ++ codes " -D " ++ (image_folder file env ++ codes " --shell-job -v"))

unfoldable pub run_criu_checkpoint : Host → Text → Text → List Text → Text → Action (Text × Text)
unfolding exec_name native_name env_arg communicate reap run_subprocess image_folder
    run_criu_command criu_dump_command
run_criu_checkpoint h aot_file folder arg env = do
  let file = native_name aot_file
  let cmd = run_criu_command aot_file folder arg
  variable ← env_arg env
  emit (printed cmd)
  pid ← run_subprocess h (split cmd) variable
  emit (slept 1000)
  emit (system (codes "mkdir -p " ++ image_folder file env))
  emit (started (split (criu_dump_command pid file env)) (some variable))
  reap h
  (out, output) ← communicate h
  let exec = exec_name env aot_file arg
  pure (exec, output)

unfoldable pub run_criu_restore : Host → Text → List Text → Text → Action (Text × Text)
unfolding exec_name native_name env_arg communicate reap image_folder
run_criu_restore h aot_file arg env = do
  let file = native_name aot_file
  let cmd = codes "/usr/sbin/criu restore -D " ++ (image_folder file env ++ codes " --shell-job -v")
  emit (printed cmd)
  variable ← env_arg env
  emit (started (split cmd) (some variable))
  reap h
  (out, output) ← communicate h
  let exec = exec_name env aot_file arg
  pure (exec, output)

unfoldable pub run_criu_checkpoint_restore :
    Host → Text → Text → List Text → Text → Action (Text × List Text)
unfolding trials_from run_criu_checkpoint run_criu_restore
run_criu_checkpoint_restore h aot_file folder arg env =
    trials_from trial (run_criu_checkpoint h aot_file folder arg env)
      (run_criu_restore h aot_file arg env) [] []

-- `cmd` of `run_qemu_checkpoint`
unfoldable pub run_qemu_command : Text → Text → List Text → Text → Text
unfolding pwd spaced native_name
run_qemu_command aot_file folder arg env =
    codes "../artifact/prepare_checkpoint.sh env "
    ++ (env
        ++ codes " "
        ++ (pwd
            ++ codes "/bench/"
            ++ (folder ++ codes "/build/" ++ (native_name aot_file ++ codes " " ++ spaced arg))))

unfoldable pub run_qemu_checkpoint : Host → Text → Text → List Text → Text → Action (Text × Output)
unfolding exec_name env_arg run_qemu_command decode_or_raw
run_qemu_checkpoint h aot_file folder arg env = do
  let cmd = run_qemu_command aot_file folder arg env
  emit (printed cmd)
  variable ← env_arg env
  emit (completed (split cmd) (some variable))
  out ← ask h.stdout
  let output = decode_or_raw h out
  let exec = exec_name env aot_file arg
  pure (exec, output)

-- The rounds of `run_qemu_checkpoint_restore`.
unfoldable pub qemu_trials :
    ℕ → Action (Text × Output) → Text → List Output → Action (Text × List Output)
qemu_trials zero checkpoint name res = pure (name, res)
qemu_trials (suc rounds) checkpoint name res = do
  emit (system (codes "nohup ../artifact/qemu_migrate_client.sh &"))
  emit (system (codes "nohup ../artifact/qemu_migrate_server.sh &"))
  emit (slept 20000)
  checkpoint_result ← checkpoint
  emit (system (codes "pkill -f qemu-system-x86_64"))
  qemu_trials rounds checkpoint checkpoint_result.0 (res ++ checkpoint_result.1 ∷ [])

unfoldable pub run_qemu_checkpoint_restore :
    Host → Text → Text → List Text → Text → Action (Text × List Output)
unfolding qemu_trials run_qemu_checkpoint
run_qemu_checkpoint_restore h aot_file folder arg env =
    qemu_trials trial (run_qemu_checkpoint h aot_file folder arg env) [] []
