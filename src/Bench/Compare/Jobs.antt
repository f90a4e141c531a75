-- ===== src/Bench/Compare/Jobs.antt =====
-- The comparison scripts: the runs that are submitted, and the files that the rows go to.
use anonymous_repo.Prelude.{
  ℕ, zero, suc, List, [], ◌∷◌, ◌++◌, get_elem?, Result, ok, err, ◌>>=◌, or_raise, index_error,
}
use anonymous_repo.Text.Str.{Text}
use anonymous_repo.Text.Edit.{replace}
use anonymous_repo.Bench.Host.{Output}

-- The arguments of a run: the file, its folder, its arguments and the setting.
pub record Job : Type 0 where
  pub file : Text
  pub folder : Text
  pub arg : List Text
  pub env : Text

-- The tables of a script.
pub record Tables : Type 0 where
  pub cmd : List Text
  pub folder : List Text
  pub arg : List (List Text)
  pub envs : List Text

-- `for i in range(len(cmd))`, with `folder[i]`, `arg[i]` and `envs[i]`.
unfoldable pub folder_jobs_for :
    List Text → List Text → List (List Text) → List Text → Result (List Job)
folder_jobs_for [] folders args envs = ok []
folder_jobs_for (c ∷ cmds) (f ∷ folders) (a ∷ args) (e ∷ envs) = do
  rest ← folder_jobs_for cmds folders args envs
  ok ((record { file = c; folder = f; arg = a; env = e }) ∷ rest)
folder_jobs_for (c ∷ cmds) _ _ _ = err index_error

-- The same in each of the trials.
unfoldable pub folder_jobs : ℕ → Tables → Result (List Job)
unfolding folder_jobs_for
folder_jobs zero t = ok []
folder_jobs (suc trials) t = do
  now ← folder_jobs_for t.cmd t.folder t.arg t.envs
  rest ← folder_jobs trials t
  ok (now ++ rest)

module _ {V : Type 0} where
  -- `results[idx][1]` of each of the lists
  unfoldable pub columns_at : ℕ → List (List (Text × V)) → Result (List V)
  columns_at idx [] = ok []
  columns_at idx (results ∷ others) = do
    row ← or_raise index_error (get_elem? results idx)
    vs ← columns_at idx others
    ok (row.1 ∷ vs)

  -- `for idx, row in enumerate(mvvm_results)`, from an index on: the rows given to the writer.
  unfoldable pub csv_rows :
      {T : Type 0}
      → ℕ
      → List (Text × T)
      → List (List (Text × V))
      → Result (List (Text × T × List V))
  unfolding columns_at
  csv_rows idx [] others = ok []
  csv_rows idx ((name, t) ∷ rows) others = do
    vs ← columns_at idx others
    more ← csv_rows (suc idx) rows others
    ok ((name, t, vs) ∷ more)

-- `workload.replace(a, "").replace(b, "")...`
unfoldable pub remove_all : List Text → Text → Text
unfolding replace
remove_all [] t = t
remove_all (p ∷ ps) t = remove_all ps (replace p [] t)

-- What a pool gives for the runs that were submitted to it, in that order, once all of them have been
-- waited for; an exception in a run is raised again.
abbrev pub Pool : Type 0 → Type 0
Pool J = List J → Result (List (Text × Output))
