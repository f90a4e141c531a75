-- ===== src/Lib.antt =====
-- Anonymous-Repo, the Python programs: the static analysis of WebAssembly modules that decides
-- where checkpoints are compiled in (wasm_static_analysis.py), and the measurement scripts in
-- artifact/ that run, checkpoint, restore and time the compiled programs.
--
-- wasm_static_analysis.py turns the text form of a module into a file of instructions
-- (`wat_to_inst`), parses that file into a tree (`InstStream`, `WasmProgram`), and runs three
-- passes over the tree: `SimpleFuncPass`, `ModifiedLocalsPass` and `LoopCkptPass`. Each pass
-- writes a key of its own into the `data` of the nodes.
--
-- Files:
-- - Prelude and its children: shared names, tests, lists, integers, exceptions as `Result`.
-- - Text/Str, Text/Number: Python's `str` as a list of code points, `int` and `str` of integers;
--   Text/Words, Text/Decimal and Text/Digits prove how text of words is taken apart and read back.
-- - Wasm/Wat/Defs: `wat_to_inst`, from the lines of the module to the text that is written;
--   Wasm/Wat/Shape and Wasm/Wat/Module say which lines a structured module has, which program they
--   stand for and which number belongs to a name; Places and Gathered are about the numbers that
--   `wat_to_inst` gives to functions, BareImport about imports of other things, and Emits, OpLines,
--   Written and RoundTrip follow the lines through it and through the parser.
-- - Wasm/Token: the TOKEN constants and `token_to_class`.
-- - Wasm/Stream: `InstStream`, a list of lines and an index.
-- - Wasm/Syntax: the classes WasmBranch to WasmFunction as data types with their `data`; `Op` and
--   `Body` are the same tree without it.
-- - Wasm/Parser: the `parse` methods as actions over the stream. Wasm/Grammar says which lines
--   stand for which tree, and Wasm/Complete and Wasm/Sound that exactly these are parsed;
--   Wasm/Sound/Balance counts the lines that begin and end blocks.
-- - Wasm/IntSet: sets and sorting of integers.
-- - Wasm/SimpleFunc, Wasm/ModifiedLocals, Wasm/LoopCkpt: for each pass its visitors (Pass), what
--   it should compute (Spec), the marks that it leaves (Marks) and the theorems (Result, Safety).
-- - Wasm/Main: `__main__`, from the arguments to the files that are written (Defs), what each pass
--   leaves for the next (Frames), and the whole run (Report).
--
-- - Text/Edit: join, replace, the substring test; Text/Split: what split gives of joined text.
-- - Bench/Host: the machine that the scripts drive, as a list of events and its answers to it.
-- - Bench/Command, Bench/Run: the constants, command pieces and single runs of
--   artifact/common_util.py; Bench/Argv proves with which arguments programs are started.
-- - Bench/Reap: the wait for a started program; Bench/Ends proves that it ends.
-- - Bench/Migrate: checkpoint and restore by MVVM, CRIU and QEMU; Bench/Trials is about the first.
-- - Bench/Tiers, Bench/Burst: the runs over several machines.
-- - Bench/FuncIndex, Bench/Clock: get_func_index, get_func_name, parse_time, parse_time_no_msec.
-- - Bench/Averages: calculate_averages and its variants; Bench/FirstTrial: which rows they use.
-- - Bench/Policy, Bench/Tables: run_mvvm of artifact/bench_policy.py, bench_policy_mac.py and
--   bench_policy_multithread.py; Bench/NoRows is about their rows.
--   Bench/LoopCounter: run_mvvm and run_mvvm_snapshot of artifact/bench_loop_counter.py.
-- - Bench/Compare: the comparison scripts. Elapsed reads the lines of /usr/bin/time, Rows collects the
--   rows, Jobs and Turns are the runs that go to a pool or one after the other; Comparison,
--   ComparisonMac, Gapbs, GapbsMac, Mac and Windows are artifact/bench_comparison.py,
--   bench_comparison_mac.py, bench_comparison_gapbs.py, bench_comparison_gapbs_mac.py, bench_mac.py
--   and bench_windows.py. Times, Hours, Lines, Csv, Aligned and Submitted are about what they measure.
-- - Bench/Smoke: loops of artifact/test_sock.py and artifact/test_multithread.py.
-- - Bench/Latency, Bench/Memory: artifact/ckpt_restore_latency.py and memory_footprint_overhead.py.
-- - Bench/UseCases: artifact/usecase_burst_computing.py (BurstComputing, BurstRuns) and
--   usecase_optimistic_computing.py (OptimisticComputing, OptimisticRuns). Tried is a `try` block that
--   keeps what was assigned before an exception, and Leaves its properties; Timeline and Samples are
--   the loops of `plot_time`, Invariant and SameLength about the lists that they fill.
-- - Metadata: src/create_mvvm_metadata.py (Defs), and its file read back (Reads).
-- - Text/Tests, Wasm/Tests, Wasm/Main/Tests, Bench/Tests, Bench/Compare/Tests,
--   Bench/UseCases/Tests, Bench/Smoke/Tests and Metadata/Tests: runs and theorems at concrete inputs.
--
-- The scripts are actions on a trace of events. What a command writes, the clock, and whether a
-- program has finished are functions of the trace, given by the record `Host`; its field `decode`
-- stands for the decoding of UTF-8. The records `Number`, `Floats` and `Times` stand for
-- Python's floats. A pool of processes is a function from the runs to their results.
--
-- Fuel: the loop over the instructions of a block and the loop over the functions take one round
-- more than the file has lines. The loop of `SimpleFuncPass` takes any number of rounds from one. The
-- wait for a program has 202 rounds: each sleeps for a tenth of a second, and it stops after 20.
--
-- Not modelled: in the analysis, printing to the terminal; the file system and what the programs
-- that are called do (wasm2wat, MVVM, CRIU, QEMU); the drawing of the plots, the statistics, and
-- the csv module, whose rows are lists of values here; of the smoke tests, artifact/test_fd.py and
-- the parts of artifact/test_sock.py that are not loops over commands with a time in the first; the
-- C++ runtime and gateway; that a program to be started is missing; text outside ASCII in numbers.
-- A failed `assert` and the other exceptions are values of `Error`. The file that is being written
-- when an exception is raised is lost.
pub mod Prelude
pub mod Text
pub mod Wasm
pub mod Bench
pub mod Metadata
