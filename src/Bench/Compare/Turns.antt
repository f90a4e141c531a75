-- ===== src/Bench/Compare/Turns.antt =====
-- bench_mac.py and bench_windows.py, where one run ends before the next one is started.
use anonymous_repo.Prelude.{ℕ, zero, suc, List, [], ◌∷◌, ◌++◌, Result, index_error}
use anonymous_repo.Text.Str.{Text, codes}
use anonymous_repo.Bench.Host.{Output, Host, Action, ◌>>=◌, pure, fail}
use anonymous_repo.Bench.Run.{run_native}

-- A step that only computes.
abbrev pub computed : {A : Type 0} → Result A → Action A
computed r es = (r, es)

-- A run of the file of each command, `run(cmd[i] + ".aot", arg[i], envs[i])`.
unfoldable pub mvvm_turns :
    (Text → List Text → Text → Action (Text × Output))
    → List Text
    → List (List Text)
    → List Text
    → Action (List (Text × Output))
mvvm_turns run_one [] args envs = pure []
mvvm_turns run_one (c ∷ cmds) (a ∷ args) (e ∷ envs) = do
  output ← run_one (c ++ codes ".aot") a e
  outputs ← mvvm_turns run_one cmds args envs
  pure (output ∷ outputs)
mvvm_turns run_one (c ∷ cmds) _ _ = fail index_error

module _ (h : Host) where
  -- `common_util.run_native(cmd[i], folder[i], arg[i], envs[i])` for each command.
  unfoldable pub native_turns :
      List Text → List Text → List (List Text) → List Text → Action (List (Text × Output))
  unfolding run_native
  native_turns [] folders args envs = pure []
  native_turns (c ∷ cmds) (f ∷ folders) (a ∷ args) (e ∷ envs) = do
    output ← run_native h c f a e
    outputs ← native_turns cmds folders args envs
    pure (output ∷ outputs)
  native_turns (c ∷ cmds) _ _ _ = fail index_error

-- `for _ in range(common_util.trial)`
unfoldable pub trials_of : Action (List (Text × Output)) → ℕ → Action (List (Text × Output))
trials_of turns zero = pure []
trials_of turns (suc trials) = do
  outputs ← turns
  more ← trials_of turns trials
  pure (outputs ++ more)
