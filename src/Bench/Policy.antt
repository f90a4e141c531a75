-- ===== src/Bench/Policy.antt =====
-- artifact/bench_policy.py, bench_policy_mac.py and bench_policy_multithread.py: `run_mvvm`.
use anonymous_repo.Prelude.{
  zero, suc, suc, ℕ, Bool, ◌&&◌, not, List, [], ◌∷◌, ◌++◌, map, reverse, get_elem?, Result, ok, err,
  ◌>>=◌, or_raise, index_error, type_error, if◌then◌else◌,
}
use anonymous_repo.Text.Str.{Text, codes, text_eq, split_on}
use anonymous_repo.Text.Edit.{is_in}
use anonymous_repo.Bench.Host.{Output, str, raw}
use anonymous_repo.Bench.Command.{aot_variant}

-- `line.split(" ")[-2]`
unfoldable pub second_last : List Text → Result Text
second_last xs = or_raise index_error (get_elem? (reverse xs) 1)

-- `exec_time` after the lines of an output: a line without the mark leaves it alone.
unfoldable pub scan_lines : Text → List Text → Text → Result Text
unfolding is_in second_last split_on
scan_lines mark [] exec_time = ok exec_time
scan_lines mark (line ∷ lines) exec_time = do
  exec_time' ← if is_in mark line then second_last (split_on 32 line) else ok exec_time
  scan_lines mark lines exec_time'

-- The lists that `run_mvvm` fills.
pub record Buckets : Type 0 where
  pub name : List Text
  pub results_0 : List Text
  pub results_1 : List Text
  pub results_2 : List Text
  pub results_3 : List Text
  pub results_4 : List Text
  pub results_5 : List Text

-- `exec.__contains__(".aot")` for none of the other policies: the last branch's condition.
unfoldable pub is_plain : Text → Text → Bool
unfolding is_in
is_plain third exec =
    not (is_in (codes "-pure.aot") exec)
    && not (is_in (codes "-stack.aot") exec)
    && not (is_in third exec)
    && not (is_in (codes "-ckpt-loop.aot") exec)
    && not (is_in (codes "-ckpt-loop-dirty.aot") exec)

-- The branches for one variant `a`; `third` is the variant that `results_3` is for, in which
-- bench_policy_mac.py differs.
unfoldable pub classify : Text → Text → Text → Text → Buckets → Buckets
unfolding is_plain text_eq
classify third exec exec_time a b =
    if text_eq a (codes "-pure.aot")
    then record b { results_1 = b.results_1 ++ exec_time ∷ [] }
    else if text_eq a (codes "-stack.aot")
    then record b { results_2 = b.results_2 ++ exec_time ∷ [] }
    else if text_eq a third
    then record b { results_3 = b.results_3 ++ exec_time ∷ [] }
    else if text_eq a (codes "-ckpt-loop.aot")
    then record b { results_4 = b.results_4 ++ exec_time ∷ [] }
    else if text_eq a (codes "-ckpt-loop-dirty.aot")
    then record b { results_5 = b.results_5 ++ exec_time ∷ [] }
    else if text_eq a (codes ".aot") && is_plain third exec
    then record b { results_0 = b.results_0 ++ exec_time ∷ []; name = b.name ++ exec ∷ [] }
    else b

-- `for a in common_util.aot_variant`
unfoldable pub classify_all : Text → Text → Text → List Text → Buckets → Buckets
unfolding is_in classify
classify_all third exec exec_time [] b = b
classify_all third exec exec_time (a ∷ variants) b =
    classify_all third exec exec_time variants
      (if is_in a exec then classify third exec exec_time a b else b)

-- `for exec, output in results1`; `output.split("\n")` raises TypeError if the output is bytes.
unfoldable pub collect : Text → List (Text × Output) → Text → Buckets → Result Buckets
unfolding scan_lines classify_all aot_variant split_on
collect third [] exec_time b = ok b
collect third ((exec, raw bytes) ∷ rest) exec_time b = err type_error
collect third ((exec, str output) ∷ rest) exec_time b = do
  exec_time' ← scan_lines (codes "Execution time:") (split_on 10 output) exec_time
  collect third rest exec_time' (classify_all third exec exec_time' aot_variant b)

-- `zip` of the seven lists.
unfoldable pub zip_buckets :
    List Text
    → List Text
    → List Text
    → List Text
    → List Text
    → List Text
    → List Text
    → List (List Text)
zip_buckets (n ∷ ns) (a ∷ as_) (b ∷ bs) (c ∷ cs) (d ∷ ds) (e ∷ es) (f ∷ fs) =
    (n ∷ a ∷ b ∷ c ∷ d ∷ e ∷ f ∷ []) ∷ zip_buckets ns as_ bs cs ds es fs
zip_buckets _ _ _ _ _ _ _ = []

abbrev pub no_results : Buckets
no_results = record {
  name = [];
  results_0 = [];
  results_1 = [];
  results_2 = [];
  results_3 = [];
  results_4 = [];
  results_5 = [];
}

-- `run_mvvm` after the runs have been awaited, from their results in the order of submission.
unfoldable pub policy_rows : Text → List (Text × Output) → Result (List (List Text))
unfolding collect zip_buckets
policy_rows third results1 = do
  b ← collect third results1 [] no_results
  ok (zip_buckets b.name b.results_0 b.results_1 b.results_2 b.results_3 b.results_4 b.results_5)

-- The runs that are submitted for the commands, with `arg[i]` and `envs[i]`.
unfoldable pub jobs_for :
    List Text → List Text → List (List Text) → List Text → Result (List (Text × List Text × Text))
jobs_for variants [] args envs = ok []
jobs_for variants (c ∷ cmds) (arg ∷ args) (env ∷ envs) = do
  rest ← jobs_for variants cmds args envs
  ok (map (λ v. (c ++ v, arg, env)) variants ++ rest)
jobs_for variants (c ∷ cmds) _ _ = err index_error

-- The same in each of the trials.
unfoldable pub trial_jobs :
    ℕ
    → List Text
    → List Text
    → List (List Text)
    → List Text
    → Result (List (Text × List Text × Text))
unfolding jobs_for
trial_jobs zero variants cmds args envs = ok []
trial_jobs (suc trials) variants cmds args envs = do
  now ← jobs_for variants cmds args envs
  rest ← trial_jobs trials variants cmds args envs
  ok (now ++ rest)

unfoldable pub bench_policy_rows : List (Text × Output) → Result (List (List Text))
unfolding policy_rows
bench_policy_rows results1 = policy_rows (codes "-ckpt-loop-counter.aot") results1

unfoldable pub bench_policy_mac_rows : List (Text × Output) → Result (List (List Text))
unfolding policy_rows
bench_policy_mac_rows results1 = policy_rows (codes "-ckpt-every-dirty.aot") results1

unfoldable pub bench_policy_multithread_rows : List (Text × Output) → Result (List (List Text))
unfolding policy_rows
bench_policy_multithread_rows results1 = policy_rows (codes "-ckpt-loop-counter.aot") results1
