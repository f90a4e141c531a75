-- ===== src/Bench/Compare/Submitted.antt =====
-- The runs that the comparison scripts submit, and tables that are too short for them.
use anonymous_repo.Prelude.{
  ℕ, zero, suc, ◌≤◌, ◌≡◌, refl, some, List, [], ◌∷◌, ◌++◌, length, get_elem?, arith, ok, err,
  index_error,
}
use anonymous_repo.Text.Str.{Text}
use anonymous_repo.Bench.Compare.Jobs.{Job, Tables, folder_jobs_for, folder_jobs}

-- No table is shorter than that of the commands.
abbrev pub IsLong : List Text → List Text → List (List Text) → List Text → Type 0
IsLong cmds folders args envs =
    (length cmds ≤ length folders) × (length cmds ≤ length args) × (length cmds ≤ length envs)

-- The entries of the tables at one index.
abbrev pub AtIndex : List Text → List Text → List (List Text) → List Text → ℕ → Job → Type 0
AtIndex cmds folders args envs i job =
    (get_elem? cmds i ≡ some job.file)
    × (get_elem? folders i ≡ some job.folder)
    × (get_elem? args i ≡ some job.arg)
    × (get_elem? envs i ≡ some job.env)

-- One run for each command, each with the entries at its index.
abbrev pub Submits : List Text → List Text → List (List Text) → List Text → List Job → Type 0
Submits cmds folders args envs jobs =
    (length jobs ≡ length cmds)
    × ((i : ℕ) (job : Job) → get_elem? jobs i ≡ some job → AtIndex cmds folders args envs i job)

abbrev pub repeated : ℕ → List Job → List Job
repeated zero jobs = []
repeated (suc n) jobs = jobs ++ repeated n jobs

AtIndex-cons :
    (c f : Text) (a : List Text) (e : Text) (cmds folders : List Text) (args : List (List Text))
    (envs : List Text) (jobs : List Job)
    → ((i : ℕ) (job : Job) → get_elem? jobs i ≡ some job → AtIndex cmds folders args envs i job)
    → (i : ℕ) (job : Job)
    → get_elem? ((record { file = c; folder = f; arg = a; env = e }) ∷ jobs) i ≡ some job
    → AtIndex (c ∷ cmds) (f ∷ folders) (a ∷ args) (e ∷ envs) i job
AtIndex-cons c f a e cmds folders args envs jobs h zero job g = (cc, cc, cc, cc)
AtIndex-cons c f a e cmds folders args envs jobs h (suc i) job g = h i job g

folder_jobs_for-Submits :
    (cmds folders : List Text) (args : List (List Text)) (envs : List Text)
    → IsLong cmds folders args envs
    → (jobs : List Job) × (folder_jobs_for cmds folders args envs ≡ ok jobs)
      × Submits cmds folders args envs jobs
unfolding folder_jobs_for
folder_jobs_for-Submits [] folders args envs h = ([], refl, (refl, λ i job g. absurd (cc)))
folder_jobs_for-Submits (c ∷ cmds) [] args envs h = absurd (omega (arith, h.0))
folder_jobs_for-Submits (c ∷ cmds) (f ∷ folders) [] envs h = absurd (omega (arith, h.1))
folder_jobs_for-Submits (c ∷ cmds) (f ∷ folders) (a ∷ args) [] h = absurd (omega (arith, h.2))
folder_jobs_for-Submits (c ∷ cmds) (f ∷ folders) (a ∷ args) (e ∷ envs) h =
    let (jobs, p, (n, q)) =
      folder_jobs_for-Submits cmds folders args envs
        (omega (arith, h.0), omega (arith, h.1), omega (arith, h.2)) in
    (
      (record { file = c; folder = f; arg = a; env = e }) ∷ jobs,
      rw p refl,
      (omega (arith, n), AtIndex-cons c f a e cmds folders args envs jobs q),
    )

folder_jobs_for-index_error :
    (cmds folders : List Text) (args : List (List Text)) (envs : List Text)
    → ¬ IsLong cmds folders args envs
    → folder_jobs_for cmds folders args envs ≡ err index_error
unfolding folder_jobs_for
folder_jobs_for-index_error [] folders args envs h =
    absurd (h (omega arith, omega arith, omega arith))
folder_jobs_for-index_error (c ∷ cmds) [] args envs h = refl
folder_jobs_for-index_error (c ∷ cmds) (f ∷ folders) [] envs h = refl
folder_jobs_for-index_error (c ∷ cmds) (f ∷ folders) (a ∷ args) [] h = refl
folder_jobs_for-index_error (c ∷ cmds) (f ∷ folders) (a ∷ args) (e ∷ envs) h =
    rw
      (folder_jobs_for-index_error cmds folders args envs
        (λ l. h (omega (arith, l.0), omega (arith, l.1), omega (arith, l.2))))
      refl

folder_jobs-repeated :
    (trials : ℕ) (t : Tables) (jobs : List Job)
    → folder_jobs_for t.cmd t.folder t.arg t.envs ≡ ok jobs
    → folder_jobs trials t ≡ ok (repeated trials jobs)
unfolding folder_jobs
folder_jobs-repeated zero t jobs e = refl
folder_jobs-repeated (suc trials) t jobs e = rw (e, folder_jobs-repeated trials t jobs e) refl

-- Where no table is shorter than that of the commands, one run for each command is submitted in each
-- trial, in the order of the commands and with the entries of the tables at its index. Where one is
-- shorter, IndexError is raised in the first trial.
pub folder_jobs_lem :
    (trials : ℕ) (t : Tables)
    → (IsLong t.cmd t.folder t.arg t.envs
        → (jobs : List Job) × (folder_jobs trials t ≡ ok (repeated trials jobs))
          × Submits t.cmd t.folder t.arg t.envs jobs)
      × (¬ IsLong t.cmd t.folder t.arg t.envs → folder_jobs (suc trials) t ≡ err index_error)
unfolding folder_jobs
folder_jobs_lem trials t = (
  λ h.
      let (jobs, e, s) = folder_jobs_for-Submits t.cmd t.folder t.arg t.envs h in
      (jobs, folder_jobs-repeated trials t jobs e, s),
  λ h. rw (folder_jobs_for-index_error t.cmd t.folder t.arg t.envs h) refl,
)
