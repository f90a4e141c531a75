-- ===== src/Bench/Tests.antt =====
-- Runs of the models of artifact/, and the theorems at a concrete machine.
use anonymous_repo.Prelude.{
  ltb, if◌then◌else◌, filter_if, ◌==◌, ◌/◌, map, sub_ℕ, ◌>>=◌, get_elem?, index_error, or_raise,
  ◌*◌, pos, Option, Result, not, all, Bool, ℕ, ◌+◌, ◌≤◌, ◌≡◌, refl, ◌⊎◌, false, true, none, some,
  List, [], ◌∷◌, ◌++◌, length, ok, err, Error, All, arith,
}
use anonymous_repo.Text.Str.{split_on, is_space, Text, codes, split}
use anonymous_repo.Text.Words.{IsWord}
use anonymous_repo.Text.Split.{NoSpace-of_all}
use anonymous_repo.Bench.Host.{
  Output, Host, Trace, Event, slept, printed, completed, str, decode_or_raw,
}
use anonymous_repo.Bench.Command.{aot_variant, exec_name, trial}
use anonymous_repo.Bench.Run.{run_command, run}
use anonymous_repo.Bench.Reap.{reap}
use anonymous_repo.Bench.Ends.{Ticks, Ended, reap-Ended}
use anonymous_repo.Bench.Argv.{checkpoint_argv, bench, run_lem}
use anonymous_repo.Bench.Migrate.{run_checkpoint_restore}
use anonymous_repo.Bench.Trials.{launches, Decodes, run_checkpoint_restore_lem}
use anonymous_repo.Bench.Tables.{cmd, arg, envs, multithread_envs}
use anonymous_repo.Text.Edit.{is_in}
use anonymous_repo.Bench.Averages.{
  Number, averages, normalize, normalize_comparison, is_left_out, calculate_averages,
  calculate_averages_comparison, normalize_loop_counter, normalize_snapshot,
  calculate_loop_counter_averages, calculate_loop_counter_snapshot_averages,
}
use anonymous_repo.Bench.FirstTrial.{first_entries, calculate_averages-first}
use anonymous_repo.Bench.Clock.{clock_text, parse_time, parse_time-clock_text}
use anonymous_repo.Bench.FuncIndex.{
  get_func_index, get_func_name, import_count, is_func_line, func_lines, get_func_index_lem,
}
use anonymous_repo.Bench.NoRows.{policy_rows-nil}
use anonymous_repo.Bench.Policy.{jobs_for, trial_jobs, policy_rows, bench_policy_rows}

-- A machine on which only sleep takes time, on which no program finishes by itself, and where only
-- ASCII is decoded.
abbrev clock : Trace → ℕ
clock [] = 0
clock (slept t ∷ es) = t + clock es
clock (_ ∷ es) = clock es

abbrev stubborn : Host
stubborn = record {
  now = clock;
  finished = λ es. false;
  pid = λ es. 7;
  stdout = λ es. codes "Execution time: 1.5 s";
  stderr = λ es. [];
  decode = λ b. if all (λ c. ltb c 128) b then some b else none;
}

clock_forward : (e : Event) (es : Trace) → clock es ≤ clock (e ∷ es)
clock_forward (slept t) es = omega arith
clock_forward _ es = omega arith

stubborn-Ticks : Ticks stubborn
stubborn-Ticks = record { forward = clock_forward; sleeps = λ t es. omega arith }

stubborn-Decodes : Decodes stubborn
stubborn-Decodes = (λ es. (codes "Execution time: 1.5 s", refl), λ es. ([], refl))

abbrev bt : Text
bt = codes "bt.aot"

abbrev one_thread : Text
one_thread = codes "OMP_NUM_THREADS=1"

abbrev bt_args : List Text
bt_args = codes "-g20" ∷ codes "-vn300" ∷ []

abbrev no_space : Text → Bool
no_space = all (λ c. not (is_space c))

bt-IsWord : IsWord bt
unfolding is_space
bt-IsWord = NoSpace-of_all bt refl

one_thread-IsWord : IsWord one_thread
unfolding is_space
one_thread-IsWord = NoSpace-of_all one_thread refl

bt_args-IsWord : All IsWord bt_args
unfolding is_space
bt_args-IsWord = (NoSpace-of_all (codes "-g20") refl, (NoSpace-of_all (codes "-vn300") refl, tt))

run_lem_example :
    (es' : Trace) × (es'
      ≡ completed (checkpoint_argv bt bt_args one_thread (split (codes "-c 10"))) none
        ∷ printed (run_command bt bt_args one_thread (codes "-c 10"))
        ∷ [])
    × (run stubborn bt bt_args one_thread (codes "-c 10") []
        ≡ (ok (exec_name one_thread bt bt_args, decode_or_raw stubborn (stubborn.stdout es')), es'))
run_lem_example =
    run_lem stubborn bt bt_args one_thread (codes "-c 10") [] bt-IsWord bt_args-IsWord
      one_thread-IsWord

reap-Ended_example :
    (es' : Trace) × (reap stubborn [] ≡ (ok tt, es')) × Ended stubborn (stubborn.now []) [] es'
reap-Ended_example = reap-Ended stubborn [] stubborn-Ticks

run_checkpoint_restore_lem_example :
    (res : List Text) × (es' : Trace) × (run_checkpoint_restore stubborn bt bt_args one_thread []
      ≡ (ok (exec_name one_thread bt bt_args, res), es'))
    × (length res ≡ trial)
    × (launches es'
        ≡ (codes "./MVVM_restore" ∷ codes "-t" ∷ (bench ++ bt) ∷ [])
          ∷ checkpoint_argv bt bt_args one_thread (codes "-c" ∷ codes "100000" ∷ [])
          ∷ (codes "./MVVM_restore" ∷ codes "-t" ∷ (bench ++ bt) ∷ [])
          ∷ checkpoint_argv bt bt_args one_thread (codes "-c" ∷ codes "100000" ∷ [])
          ∷ launches [])
run_checkpoint_restore_lem_example =
    run_checkpoint_restore_lem stubborn bt bt_args one_thread [] stubborn-Decodes stubborn-Ticks
      bt-IsWord bt_args-IsWord one_thread-IsWord

-- Two runs of one command, as `run_mvvm` gets them back.
abbrev two_runs : List (Text × Output)
two_runs =
    (codes "a=b bt.aot", str (codes "Execution time: 1.5 s"))
    ∷ (codes "a=b bt-pure.aot", str (codes "Execution time: 2.5 s"))
    ∷ []

policy_rows-nil_example :
    ((e : Error) × (policy_rows (codes "-ckpt-loop-counter.aot") two_runs ≡ err e))
    ⊎ (policy_rows (codes "-ckpt-loop-counter.aot") two_runs ≡ ok [])
policy_rows-nil_example = policy_rows-nil (codes "-ckpt-loop-counter.aot") two_runs

two_runs_rows : bench_policy_rows two_runs ≡ ok []
unfolding bench_policy_rows
two_runs_rows = refl

abbrev jobs_length : Result (List (Text × List Text × Text)) → Option ℕ
jobs_length (err e) = none
jobs_length (ok jobs) = some (length jobs)

-- Two trials of 18 commands in six variants each.
policy_jobs : jobs_length (trial_jobs trial aot_variant cmd arg envs) ≡ some 216
unfolding trial_jobs jobs_for aot_variant cmd arg envs
policy_jobs = refl

multithread_jobs : jobs_length (trial_jobs trial aot_variant cmd arg multithread_envs) ≡ some 216
unfolding trial_jobs jobs_for aot_variant cmd arg multithread_envs
multithread_jobs = refl

parse_time-clock_text_example :
    parse_time (clock_text 1 2 3 45) ≡ ok (pos (3600000 * 1 + 60000 * 2 + 1000 * 3 + 45))
parse_time-clock_text_example = parse_time-clock_text 1 2 3 45

-- A type, an imported function and a function, a line each.
abbrev listing : Text
listing =
    codes "  (type (;0;) (func))"
    ++ 10
      ∷ (codes "  (import \"env\" \"f\" (func $f (type 0)))" ++ 10 ∷ codes "  (func $main (type 0)")

get_func_index_lem_example :
    ((get_func_index (codes "$main") listing ≡ none)
      × All (λ x. is_in (codes "$main") x ≡ false) (func_lines listing))
    ⊎ ((before : List Text) × (x : Text) × (after : List Text) × (func_lines listing
          ≡ before ++ x ∷ after)
        × All (λ y. is_in (codes "$main") y ≡ false) before
        × (is_in (codes "$main") x ≡ true)
        × (get_func_index (codes "$main") listing ≡ some (length before))
        × (get_func_name (pos (length before)) listing ≡ (
            or_raise index_error (get_elem? (split_on 32 x) 3) >>= λ name.
            ok (some (name, sub_ℕ (length before) (import_count (split_on 10 listing)))))))
get_func_index_lem_example = get_func_index_lem (codes "$main") listing

listing_index : get_func_index (codes "$main") listing ≡ some 1
unfolding get_func_index is_func_line split_on
listing_index = refl

listing_name : get_func_name (pos 1) listing ≡ ok (some (codes "$main", pos 0))
unfolding get_func_name is_func_line split_on import_count
listing_name = refl

-- Whole numbers with division rounded down.
abbrev whole : Number
whole = record {
  Value = ℕ;
  of_nat = λ n. n;
  add = λ a b. a + b;
  divide = λ a b. a / b;
  is_zero = λ a. a == 0;
}

-- Two trials of one workload, the second three times as slow.
abbrev two_trials : List (Text × ℕ × ℕ × ℕ × ℕ × ℕ)
two_trials = (codes "bt", 4, 2, 4, 6, 8) ∷ (codes "bt", 12, 2, 12, 18, 24) ∷ []

calculate_averages-first_example :
    (calculate_averages whole two_trials
      ≡ averages whole (first_entries [] (map (normalize whole) two_trials)))
    × (calculate_averages_comparison whole two_trials
        ≡ averages whole (
            first_entries [] (
              map
                (normalize_comparison whole)
                (filter_if (λ r. not (is_left_out whole r.0)) two_trials))))
    × (calculate_loop_counter_averages whole []
        ≡ averages whole (first_entries [] (map (normalize_loop_counter whole) [])))
    × (calculate_loop_counter_snapshot_averages whole []
        ≡ averages whole (first_entries [] (map (normalize_snapshot whole) [])))
calculate_averages-first_example = calculate_averages-first whole two_trials [] []
