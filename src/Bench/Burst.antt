-- ===== src/Bench/Burst.antt =====
-- artifact/common_util.py: `run_checkpoint_restore_burst`.
use anonymous_repo.Prelude.{any, if◌then◌else◌, name_error, List, [], ◌∷◌, ◌++◌, none}
use anonymous_repo.Text.Str.{text_eq, Text, codes, split}
use anonymous_repo.Bench.Host.{
  slept, Host, Action, Output, printed, system, completed, ◌>>=◌, ◌>>◌, pure, fail, emit, ask,
  decode_or_raw,
}
use anonymous_repo.Bench.Command.{pwd_mac, burst, flags, exec_name}

unfoldable pub exec_with_log : Text → Action (Unit {0})
exec_with_log cmd = do emit (printed cmd); emit (system cmd)

-- `exec_with_log` of each command.
unfoldable pub log_all : List Text → Action (Unit {0})
unfolding exec_with_log
log_all [] = pure tt
log_all (cmd ∷ cmds) = do exec_with_log cmd; log_all cmds

-- The commands up to the call of `sleep`, in their order.
unfoldable pub burst_script :
    Text → List Text → Text → List Text → Text → Text → Text → Text → Text → Text → List Text
unfolding burst pwd_mac flags
burst_script aot_file arg aot_file1 arg1 env extra1 extra2 extra3 extra6 extra7 =
    codes "rm ./*.out"
    ∷ codes "sudo pkill MVVM_checkpoint"
    ∷ codes "sudo pkill MVVM_restore"
    ∷ (codes "ssh -t " ++ (burst ++ codes " pkill MVVM_checkpoint"))
    ∷ (codes "ssh -t " ++ (burst ++ codes " pkill MVVM_restore"))
    ∷ (codes "ssh -t " ++ (burst ++ (codes " rm " ++ (pwd_mac ++ codes "/build/*.out"))))
    ∷ (codes "script -f -q /dev/null -c 'ssh -t "
        ++ (burst
            ++ (codes " ./MVVM_restore -t ./bench/"
                ++ (aot_file1 ++ (codes " " ++ (extra2 ++ codes "' >> MVVM_restore.0.out &"))))))
    ∷ (codes "ssh -t "
        ++ (burst
            ++ (codes " "
                ++ (pwd_mac
                    ++ (codes "/artifact/run_with_energy_monitoring_mac.sh MVVM_restore 0 "
                        ++ (aot_file ++ codes " &"))))))
    ∷ (codes "script -f -q /dev/null -c './MVVM_restore -t ./bench/"
        ++ (aot_file1 ++ (codes " " ++ (extra3 ++ codes "' >> MVVM_restore.1.out &"))))
    ∷ (codes "sudo ../artifact/run_with_energy_monitoring.sh MVVM_restore 1 "
        ++ (aot_file ++ codes " &"))
    ∷ (codes "script -f -q /dev/null -c './MVVM_restore -t ./bench/"
        ++ (aot_file ++ (codes " " ++ (extra7 ++ codes "' >> MVVM_restore.4.out &"))))
    ∷ (codes "sudo ../artifact/run_with_energy_monitoring.sh MVVM_restore 4 "
        ++ (aot_file1 ++ codes " &"))
    ∷ codes "sleep 100"
    ∷ (codes "./MVVM_checkpoint -t ./bench/"
        ++ (aot_file1
            ++ (codes " "
                ++ (flags arg1
                    ++ (codes " -e "
                        ++ (env
                            ++ (codes " " ++ (extra1 ++ codes " > MVVM_checkpoint.0.out &"))))))))
    ∷ (codes "sudo ../artifact/run_with_energy_monitoring.sh MVVM_checkpoint 0 "
        ++ (aot_file ++ codes " &"))
    ∷ codes "sleep 640"
    ∷ (codes "script -f -q /dev/null -c 'ssh -t "
        ++ (burst
            ++ (codes "  ./MVVM_checkpoint -t ./bench/"
                ++ (aot_file
                    ++ (codes " "
                        ++ (flags arg
                            ++ (codes " -e "
                                ++ (env
                                    ++ (codes " "
                                        ++ (extra6 ++ codes "' > MVVM_checkpoint.1.out &"))))))))))
    ∷ (codes "ssh -t "
        ++ (burst
            ++ (codes " "
                ++ (pwd_mac
                    ++ (codes "/artifact/run_with_energy_monitoring_mac.sh MVVM_checkpoint 1 "
                        ++ (aot_file1 ++ codes " &"))))))
    ∷ codes "pkill -SIGINT MVVM_checkpoint"
    ∷ []

-- The commands after it.
unfoldable pub burst_script_end : Text → Text → Text → Text → Text → Text → List Text
unfolding burst pwd_mac
burst_script_end aot_file aot_file1 extra4 extra5 extra8 extra9 =
    codes "pkill -SIGINT MVVM_checkpoint"
    ∷ codes "sleep 50"
    ∷ (codes "ssh -t " ++ (burst ++ codes " pkill -SIGINT MVVM_restore"))
    ∷ (codes "ssh -t " ++ (burst ++ codes " pkill -SIGINT MVVM_checkpoint"))
    ∷ (codes "script -f -q /dev/null -c 'ssh -t "
        ++ (burst
            ++ (codes " ./MVVM_restore -t ./bench/"
                ++ (aot_file1 ++ (codes " " ++ (extra4 ++ codes "' >> MVVM_restore.2.out &"))))))
    ∷ (codes "ssh -t "
        ++ (burst
            ++ (codes " "
                ++ (pwd_mac
                    ++ (codes "/artifact/run_with_energy_monitoring_mac.sh MVVM_restore 2 "
                        ++ (aot_file ++ codes " &"))))))
    ∷ (codes "script -f -q /dev/null -c 'ssh -t "
        ++ (burst
            ++ (codes " ./MVVM_restore -t ./bench/"
                ++ (aot_file ++ (codes " " ++ (extra8 ++ codes "' >> MVVM_restore.5.out &"))))))
    ∷ (codes "ssh -t "
        ++ (burst
            ++ (codes " "
                ++ (pwd_mac
                    ++ (codes "/artifact/run_with_energy_monitoring_mac.sh MVVM_restore 5 "
                        ++ (aot_file1 ++ codes " &"))))))
    ∷ codes "sleep 50"
    ∷ codes "pkill -SIGINT MVVM_restore"
    ∷ (codes "script -f -q /dev/null -c './MVVM_restore -t ./bench/"
        ++ (aot_file ++ (codes " " ++ (extra9 ++ codes "' >> MVVM_restore.6.out &"))))
    ∷ (codes "sudo ../artifact/run_with_energy_monitoring.sh MVVM_restore 6 "
        ++ (aot_file1 ++ codes " &"))
    ∷ (codes "script -f -q /dev/null -c './MVVM_restore -t ./bench/"
        ++ (aot_file1 ++ (codes " " ++ (extra5 ++ codes "' >> MVVM_restore.3.out &"))))
    ∷ (codes "sudo ../artifact/run_with_energy_monitoring.sh MVVM_restore 3 "
        ++ (aot_file ++ codes " &"))
    ∷ codes "sleep 50"
    ∷ (codes "ssh -t " ++ (burst ++ codes " pkill -SIGINT MVVM_restore"))
    ∷ codes "sleep 1000"
    ∷ (codes "scp " ++ (burst ++ (codes ":" ++ (pwd_mac ++ codes "/build/*.*.out ./"))))
    ∷ []

-- The names that common_util.py imports, assigns or defines.
unfoldable pub global_names : List Text
global_names =
    codes "subprocess"
    ∷ codes "os"
    ∷ codes "asyncio"
    ∷ codes "time"
    ∷ codes "np"
    ∷ codes "plt"
    ∷ codes "defaultdict"
    ∷ codes "csv"
    ∷ codes "pwd_mac"
    ∷ codes "pwd"
    ∷ codes "slowtier"
    ∷ codes "burst"
    ∷ codes "calculate_averages_comparison"
    ∷ codes "calculate_averages"
    ∷ codes "calculate_loop_counter_averages"
    ∷ codes "calculate_loop_counter_snapshot_averages"
    ∷ codes "plot"
    ∷ codes "plot_loop_counter"
    ∷ codes "plot_loop_counter_snapshot"
    ∷ codes "plot_whole"
    ∷ codes "get_avg_99percent"
    ∷ codes "parse_time"
    ∷ codes "parse_time_no_msec"
    ∷ codes "get_func_index"
    ∷ codes "list_of_arg"
    ∷ codes "aot_variant"
    ∷ codes "aot_variant_freq"
    ∷ codes "trial"
    ∷ codes "contains_result"
    ∷ codes "run_checkpoint_restore"
    ∷ codes "run_checkpoint"
    ∷ codes "run_restore"
    ∷ codes "run_criu_checkpoint_restore"
    ∷ codes "run_subprocess"
    ∷ codes "run_criu_checkpoint"
    ∷ codes "run_criu_restore"
    ∷ codes "run_qemu_checkpoint_restore"
    ∷ codes "run_qemu_checkpoint"
    ∷ codes "run"
    ∷ codes "run_profile"
    ∷ codes "run_checkpoint_restore_burst_overhead"
    ∷ codes "run_checkpoint_restore_slowtier_overhead"
    ∷ codes "run_checkpoint_restore_slowtier"
    ∷ codes "exec_with_log"
    ∷ codes "run_checkpoint_restore_burst"
    ∷ codes "run_slowtier"
    ∷ codes "run_burst"
    ∷ codes "run_hcontainer"
    ∷ codes "run_native"
    ∷ codes "run_qemu_x86_64"
    ∷ codes "run_qemu_aarch64"
    ∷ []

-- A call of a function by a name that is not a local one.
unfoldable pub call_global : Text → Action (Unit {0}) → Action (Unit {0})
unfolding global_names
call_global name act = if any (text_eq name) global_names then act else fail name_error

-- `sleep(1)`, which would wait for a second if the name were that of time.sleep.
unfoldable pub sleep_call : Action (Unit {0})
unfolding call_global
sleep_call = call_global (codes "sleep") (emit (slept 1000))

unfoldable pub run_checkpoint_restore_burst :
    Host
    → Text
    → List Text
    → Text
    → List Text
    → Text
    → Text
    → Text
    → Text
    → Text
    → Text
    → Text
    → Text
    → Text
    → Text
    → Action (List (Text × Output))
unfolding log_all burst_script burst_script_end sleep_call exec_name decode_or_raw
run_checkpoint_restore_burst h aot_file arg aot_file1 arg1 env extra1 extra2 extra3 extra4 extra5
      extra6 extra7 extra8 extra9 =
    do
      log_all (burst_script aot_file arg aot_file1 arg1 env extra1 extra2 extra3 extra6 extra7)
      sleep_call
      log_all (burst_script_end aot_file aot_file1 extra4 extra5 extra8 extra9)
      let cmd =
          codes
            "cat ./MVVM_checkpoint.0.out ./MVVM_checkpoint.1.out ./MVVM_restore.0.out ./MVVM_restore.1.out ./MVVM_restore.2.out ./MVVM_restore.3.out ./MVVM_restore.4.out ./MVVM_restore.5.out ./MVVM_restore.6.out"
      emit (completed (split cmd) none)
      out ← ask h.stdout
      let output = decode_or_raw h out
      let exec = exec_name env aot_file arg
      pure ((exec, output) ∷ [])
