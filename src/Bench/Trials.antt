-- ===== src/Bench/Trials.antt =====
-- artifact/common_util.py: the repeated checkpoint and restore by MVVM, as the machine sees it.
use anonymous_repo.Prelude.{
  none, ℕ, ◌+◌, zero, suc, ◌≡◌, refl, ◌∙◌, ap, some, ok, List, [], ◌∷◌, ◌++◌, length, length-append,
  All, arith,
}
use anonymous_repo.Text.Str.{split, Text, codes}
use anonymous_repo.Text.Edit.{universal_newlines}
use anonymous_repo.Text.Words.{IsWord}
use anonymous_repo.Bench.Host.{
  Host, Trace, Action, slept, polled, awaited, terminated, killed, waited, printed, system,
  completed, started, communicated, communicate, decode_or_raise,
}
use anonymous_repo.Bench.Command.{exec_name, trial}
use anonymous_repo.Bench.Ends.{Ticks, Polls, first, again, Ended, reap-Ended}
use anonymous_repo.Bench.Migrate.{
  run_checkpoint_command, run_checkpoint, run_restore, trials_from, run_checkpoint_restore,
}
use anonymous_repo.Bench.Argv.{
  bench, checkpoint_argv, split-run_checkpoint_command, split-restore_command,
}

-- The arguments of the programs that were started, the last one first.
abbrev pub launches : Trace → List (List Text)
launches [] = []
launches (completed argv env ∷ es) = argv ∷ launches es
launches (started argv env ∷ es) = argv ∷ launches es
launches (printed t ∷ es) = launches es
launches (system t ∷ es) = launches es
launches (slept t ∷ es) = launches es
launches (polled ∷ es) = launches es
launches (awaited t ∷ es) = launches es
launches (terminated ∷ es) = launches es
launches (killed ∷ es) = launches es
launches (waited ∷ es) = launches es
launches (communicated ∷ es) = launches es

-- Both outputs of every program are UTF-8.
abbrev pub Decodes : Host → Type 0
Decodes h =
    ((es : Trace) → (t : Text) × (h.decode (h.stdout es) ≡ some t))
    × ((es : Trace) → (t : Text) × (h.decode (h.stderr es) ≡ some t))

launches-Polls : {before es : Trace} → Polls before es → launches es ≡ launches before
launches-Polls first = refl
launches-Polls (again p) = launches-Polls p

launches-Ended :
    {h : Host} {start : ℕ} {before es : Trace}
    → Ended h start before es
    → launches es ≡ launches before
launches-Ended (Ended.exited p e) = launches-Polls p
launches-Ended (Ended.stopped p l e) = launches-Polls p
launches-Ended (Ended.forced p l e) = launches-Polls p

-- The action succeeds with that name, and has started that one program.
abbrev pub Starts : Text → List Text → Action (Text × Text) → Type 0
Starts name argv act =
    (es : Trace)
    → (t : Text) × (es' : Trace) × (act es ≡ (ok (name, t), es'))
      × (launches es' ≡ argv ∷ launches es)

run_checkpoint-Starts :
    (h : Host) (aot_file : Text) (arg : List Text) (env : Text)
    → Decodes h
    → IsWord aot_file
    → All IsWord arg
    → IsWord env
    → Starts
        (exec_name env aot_file arg)
        (checkpoint_argv aot_file arg env (codes "-c" ∷ codes "100000" ∷ []))
        (run_checkpoint h aot_file arg env)
unfolding run_checkpoint decode_or_raise
run_checkpoint-Starts h aot_file arg env d k l m es =
    let cmd = run_checkpoint_command aot_file arg env in
    let ran : Trace = completed (split cmd) none ∷ printed cmd ∷ es in
    let (t, e) = d.0 ran in
    (t, ran, rw e, ap (λ a. a ∷ launches es) (split-run_checkpoint_command aot_file arg env k l m))

run_restore-Starts :
    (h : Host) (aot_file : Text) (arg : List Text) (env : Text)
    → Decodes h
    → Ticks h
    → IsWord aot_file
    → Starts
        (exec_name env aot_file arg)
        (codes "./MVVM_restore" ∷ codes "-t" ∷ (bench ++ aot_file) ∷ [])
        (run_restore h aot_file arg env)
unfolding run_restore communicate decode_or_raise
run_restore-Starts h aot_file arg env d t k es =
    let cmd = codes "./MVVM_restore -t ./bench/" ++ aot_file in
    let begun : Trace = started (split cmd) none ∷ printed cmd ∷ es in
    let (ended, e, w) = reap-Ended h begun t in
    let (out, f) = d.0 (communicated ∷ ended) in
    let (errors, g) = d.1 (communicated ∷ ended) in
    (
      universal_newlines out,
      communicated ∷ ended,
      rw e (rw f (rw g)),
      launches-Ended w ∙ ap (λ a. a ∷ launches es) (split-restore_command aot_file k),
    )

-- The programs started by rounds of a checkpoint and a restore, after others.
abbrev pub alternating : ℕ → List Text → List Text → List (List Text) → List (List Text)
alternating zero checkpoint restore before = before
alternating (suc rounds) checkpoint restore before =
    alternating rounds checkpoint restore (restore ∷ checkpoint ∷ before)

trials_from-alternating :
    (rounds : ℕ) (c r : Action (Text × Text)) (name name' : Text) (ca ra : List Text)
    (res : List Text) (es : Trace)
    → Starts name ca c
    → Starts name' ra r
    → (res' : List Text) × (es' : Trace) × (trials_from rounds c r name res es
        ≡ (ok (name, res'), es'))
      × (length res' ≡ length res + rounds)
      × (launches es' ≡ alternating rounds ca ra (launches es))
unfolding trials_from
trials_from-alternating zero c r name name' ca ra res es hc hr = (res, es, refl, omega arith, refl)
trials_from-alternating (suc rounds) c r name name' ca ra res es hc hr =
    let (t, es₁, e₁, l₁) = hc es in
    let (u, es₂, e₂, l₂) = hr es₁ in
    let (res', es', e, n, q) =
      trials_from-alternating rounds c r name name' ca ra (res ++ (t ++ u) ∷ []) es₂ hc hr in
    (
      res',
      es',
      rw e₁ (rw e₂ e),
      omega (arith, n, length-append res ((t ++ u) ∷ [])),
      q ∙ ap (alternating rounds ca ra) (l₂ ∙ ap (λ x. ra ∷ x) l₁),
    )

-- Where the clock and sleep behave, both outputs of each program are UTF-8, and the file, the arguments and the setting
-- are words, `run_checkpoint_restore` raises nothing; it starts MVVM_checkpoint and MVVM_restore in
-- turn, twice, with the file, the flags, the setting and the count of 100000 among the arguments of
-- the first and the file alone among those of the second, and returns the name of the run and two
-- outputs.
pub run_checkpoint_restore_lem :
    (h : Host) (aot_file : Text) (arg : List Text) (env : Text) (es : Trace)
    → Decodes h
    → Ticks h
    → IsWord aot_file
    → All IsWord arg
    → IsWord env
    → (res : List Text) × (es' : Trace) × (run_checkpoint_restore h aot_file arg env es
        ≡ (ok (exec_name env aot_file arg, res), es'))
      × (length res ≡ trial)
      × (launches es'
          ≡ (codes "./MVVM_restore" ∷ codes "-t" ∷ (bench ++ aot_file) ∷ [])
            ∷ checkpoint_argv aot_file arg env (codes "-c" ∷ codes "100000" ∷ [])
            ∷ (codes "./MVVM_restore" ∷ codes "-t" ∷ (bench ++ aot_file) ∷ [])
            ∷ checkpoint_argv aot_file arg env (codes "-c" ∷ codes "100000" ∷ [])
            ∷ launches es)
unfolding run_checkpoint_restore trials_from
run_checkpoint_restore_lem h aot_file arg env es d t k l m =
    trials_from-alternating trial (run_checkpoint h aot_file arg env)
      (run_restore h aot_file arg env) (exec_name env aot_file arg) (exec_name env aot_file arg) _ _
      [] es (run_checkpoint-Starts h aot_file arg env d k l m)
      (run_restore-Starts h aot_file arg env d t k)
