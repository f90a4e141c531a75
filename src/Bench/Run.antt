-- ===== src/Bench/Run.antt =====
-- artifact/common_util.py: the runs of one program, `run` to `run_qemu_aarch64`.
use anonymous_repo.Prelude.{List, ◌++◌, none, some}
use anonymous_repo.Text.Str.{Text, codes, split, strip}
use anonymous_repo.Text.Edit.{replace}
use anonymous_repo.Bench.Host.{
  Host, Action, Output, printed, system, completed, ◌>>=◌, ◌>>◌, pure, emit, ask, decode_or_raw,
}
use anonymous_repo.Bench.Command.{pwd, slowtier, burst, flags, spaced, exec_name, env_arg}

-- `cmd` of `run`
unfoldable pub run_command : Text → List Text → Text → Text → Text
unfolding flags
run_command aot_file arg env extra =
    codes "./MVVM_checkpoint -t ./bench/"
    ++ (aot_file ++ codes " " ++ (flags arg ++ codes " -e " ++ (env ++ codes " " ++ extra)))

unfoldable pub run : Host → Text → List Text → Text → Text → Action (Text × Output)
unfolding run_command exec_name decode_or_raw
run h aot_file arg env extra = do
  let cmd = run_command aot_file arg env extra
  emit (printed cmd)
  emit (completed (split cmd) none)
  out ← ask h.stdout
  let output = decode_or_raw h out
  let exec = exec_name env aot_file arg
  pure (exec, output)

-- `cmd` of `run_profile`
unfoldable pub run_profile_command : Text → List Text → Text → Text → Text
unfolding flags replace
run_profile_command aot_file arg env extra =
    let wasm_file = replace (codes "aot") (codes "wasm") aot_file in
    codes "./MVVM_profile -w ./bench/"
    ++ (wasm_file
        ++ codes " -t ./bench/"
        ++ (aot_file ++ codes " " ++ (flags arg ++ codes " -e " ++ (env ++ codes " " ++ extra))))

unfoldable pub run_profile : Host → Text → List Text → Text → Text → Action (Text × Output)
unfolding run_profile_command exec_name decode_or_raw
run_profile h aot_file arg env extra = do
  let cmd = run_profile_command aot_file arg env extra
  emit (printed cmd)
  emit (completed (split cmd) none)
  out ← ask h.stdout
  let output = decode_or_raw h out
  let exec = exec_name env aot_file arg
  pure (exec, output)

-- `cmd` of `run_slowtier`
unfoldable pub run_slowtier_command : Text → List Text → Text → Text → Text
unfolding flags slowtier pwd
run_slowtier_command aot_file arg env extra =
    codes "ssh "
    ++ (slowtier
        ++ codes " "
        ++ (pwd
            ++ codes "/build/MVVM_checkpoint -t "
            ++ (pwd
                ++ codes "/build/bench/"
                ++ (aot_file
                    ++ codes " "
                    ++ (flags arg ++ codes " -e " ++ (env ++ codes " " ++ extra))))))

unfoldable pub run_slowtier : Host → Text → List Text → Text → Text → Action (Text × Output)
unfolding run_slowtier_command exec_name decode_or_raw
run_slowtier h aot_file arg env extra = do
  let cmd = run_slowtier_command aot_file arg env extra
  emit (printed cmd)
  emit (completed (split cmd) none)
  out ← ask h.stdout
  let output = decode_or_raw h out
  let exec = exec_name env aot_file arg
  pure (exec, output)

-- The command that `run_burst` hands to the shell.
unfoldable pub run_burst_command : Text → List Text → Text → Text → Text
unfolding flags burst
run_burst_command aot_file arg env extra =
    codes "script -q /dev/null -c 'ssh -t "
    ++ (burst
        ++ codes " ./MVVM_checkpoint -t ./bench/"
        ++ (aot_file
            ++ codes " "
            ++ (flags arg
                ++ codes " -e "
                ++ (env ++ codes " " ++ (extra ++ codes "' > burst.out")))))

unfoldable pub run_burst : Host → Text → List Text → Text → Text → Action (Text × Output)
unfolding run_burst_command exec_name decode_or_raw
run_burst h aot_file arg env extra = do
  emit (system (run_burst_command aot_file arg env extra))
  let cmd = codes "cat burst.out"
  emit (printed cmd)
  emit (completed (split cmd) none)
  out ← ask h.stdout
  let output = decode_or_raw h out
  let exec = exec_name env aot_file arg
  pure (exec, output)

-- `cmd` of `run_hcontainer`
unfoldable pub run_hcontainer_command : Text → Text → List Text → Text
unfolding spaced pwd
run_hcontainer_command file folder arg =
    codes "/usr/bin/time "
    ++ (pwd
        ++ codes "/bench/"
        ++ (folder ++ codes "/build_x86/" ++ (file ++ codes " " ++ spaced arg)))

unfoldable pub run_hcontainer : Host → Text → Text → List Text → Text → Action (Text × Output)
unfolding run_hcontainer_command exec_name decode_or_raw
run_hcontainer h file folder arg env = do
  let cmd = run_hcontainer_command file folder arg
  emit (printed cmd)
  emit (completed (split cmd) none)
  errors ← ask h.stderr
  let output = decode_or_raw h errors
  let exec = exec_name env file arg
  pure (exec, output)

-- `cmd` of `run_native`
unfoldable pub run_native_command : Text → Text → List Text → Text
unfolding spaced pwd strip
run_native_command file folder arg = strip (
    codes "/usr/bin/time "
    ++ (pwd ++ codes "/bench/" ++ (folder ++ codes "/build/" ++ (file ++ codes " " ++ spaced arg))))

unfoldable pub run_native : Host → Text → Text → List Text → Text → Action (Text × Output)
unfolding run_native_command exec_name decode_or_raw env_arg
run_native h file folder arg env = do
  let cmd = run_native_command file folder arg
  emit (printed cmd)
  variable ← env_arg env
  emit (completed (split cmd) (some variable))
  errors ← ask h.stderr
  let output = decode_or_raw h errors
  let exec = exec_name env file arg
  pure (exec, output)

-- `cmd` of `run_qemu_x86_64`
unfoldable pub run_qemu_x86_64_command : Text → Text → List Text → Text → Text
unfolding spaced pwd
run_qemu_x86_64_command file folder arg env =
    codes "/usr/bin/time /usr/bin/qemu-x86_64 -E "
    ++ (env
        ++ codes " "
        ++ (pwd
            ++ codes "/bench/"
            ++ (folder ++ codes "/build/" ++ (file ++ codes " " ++ spaced arg))))

unfoldable pub run_qemu_x86_64 : Host → Text → Text → List Text → Text → Action (Text × Output)
unfolding run_qemu_x86_64_command exec_name decode_or_raw
run_qemu_x86_64 h file folder arg env = do
  let cmd = run_qemu_x86_64_command file folder arg env
  emit (printed cmd)
  emit (completed (split cmd) none)
  errors ← ask h.stderr
  let output = decode_or_raw h errors
  let exec = exec_name env file arg
  pure (exec, output)

-- `cmd` of `run_qemu_aarch64`
unfoldable pub run_qemu_aarch64_command : Text → Text → List Text → Text → Text
unfolding spaced pwd
run_qemu_aarch64_command file folder arg env =
    codes "/usr/bin/time /usr/bin/qemu-aarch64 -E "
    ++ (env
        ++ codes " "
        ++ (pwd
            ++ codes "/bench/"
            ++ (folder ++ codes "/build_aarch64_native/" ++ (file ++ codes " " ++ spaced arg))))

unfoldable pub run_qemu_aarch64 : Host → Text → Text → List Text → Text → Action (Text × Output)
unfolding run_qemu_aarch64_command exec_name decode_or_raw
run_qemu_aarch64 h file folder arg env = do
  let cmd = run_qemu_aarch64_command file folder arg env
  emit (printed cmd)
  emit (completed (split cmd) none)
  errors ← ask h.stderr
  let output = decode_or_raw h errors
  let exec = exec_name env file arg
  pure (exec, output)
