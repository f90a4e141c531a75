-- ===== src/Bench/Argv.antt =====
-- The arguments that the started programs get: what `cmd.split()` makes of the command lines of
-- artifact/common_util.py.
use anonymous_repo.Prelude.{
  ok, sym, false, All-append, ◌≡◌, refl, ◌∙◌, ap, [], ◌∷◌, ◌++◌, append_assoc, List, map, All, none,
}
use anonymous_repo.Text.Str.{is_space, Text, codes, split}
use anonymous_repo.Text.Words.{IsWord-NoSpace, split-word_space, split-word, IsWord, NoSpace}
use anonymous_repo.Text.Split.{NoSpace-of_all, split-append_space, split_all, split-join}
use anonymous_repo.Bench.Host.{decode_or_raw, Host, Trace, printed, completed}
use anonymous_repo.Bench.Command.{exec_name, flags}
use anonymous_repo.Bench.Migrate.{run_checkpoint_command}
use anonymous_repo.Bench.Run.{run_command, run}

-- `-a` before each argument.
abbrev pub flag_words : List Text → List Text
flag_words [] = []
flag_words (x ∷ xs) = codes "-a" ∷ x ∷ flag_words xs

split-dash_a : (t : Text) → split (codes "-a " ++ t) ≡ codes "-a" ∷ split t
unfolding split
split-dash_a t = refl

split_all-flags :
    (arg : List Text)
    → All IsWord arg
    → split_all (map (λ x. codes "-a " ++ x) arg) ≡ flag_words arg
split_all-flags [] h = refl
split_all-flags (x ∷ xs) h = simp (split-dash_a x, split-word x h.0, split_all-flags xs h.1)

pub split-flags : (arg : List Text) → All IsWord arg → split (flags arg) ≡ flag_words arg
unfolding flags
split-flags arg h = split-join (map (λ x. codes "-a " ++ x) arg) ∙ split_all-flags arg h

split-dash_e : (t : Text) → split (codes "-e " ++ t) ≡ codes "-e" ∷ split t
unfolding split
split-dash_e t = refl

-- The end of the command lines of MVVM_checkpoint.
pub split-options :
    (arg : List Text) (t : Text)
    → All IsWord arg
    → split (flags arg ++ codes " -e " ++ t) ≡ flag_words arg ++ codes "-e" ∷ split t
split-options arg t h =
    rw append_assoc
      (split-append_space (flags arg) (codes "-e " ++ t) ∙ simp (split-flags arg h, split-dash_e t))

IsWord-append : (folder w : Text) → NoSpace folder → IsWord w → IsWord (folder ++ w)
IsWord-append [] w h k = k
IsWord-append (c ∷ f) w h k =
    (h.0, All-append (λ x. is_space x ≡ false) f w h.1 (IsWord-NoSpace w k))

-- A name after a folder, and more words.
pub split-path :
    (folder w t : Text)
    → NoSpace folder
    → IsWord w
    → split (folder ++ (w ++ codes " " ++ t)) ≡ (folder ++ w) ∷ split t
split-path folder w t h k =
    ap (λ u. split (folder ++ u)) (append_assoc w (32 ∷ []) t)
    ∙ ap split (sym (append_assoc folder w (32 ∷ t)))
    ∙ split-word_space (folder ++ w) t (IsWord-append folder w h k)

abbrev pub bench : Text
bench = codes "./bench/"

bench-NoSpace : NoSpace bench
unfolding is_space
bench-NoSpace = NoSpace-of_all bench refl

split-checkpoint :
    (t : Text)
    → split (codes "./MVVM_checkpoint -t " ++ t) ≡ codes "./MVVM_checkpoint" ∷ codes "-t" ∷ split t
unfolding split
split-checkpoint t = refl

pub split-run_command :
    (aot_file : Text) (arg : List Text) (env extra : Text)
    → IsWord aot_file
    → All IsWord arg
    → IsWord env
    → split (run_command aot_file arg env extra)
      ≡ codes "./MVVM_checkpoint"
        ∷ codes "-t"
        ∷ (bench ++ aot_file)
        ∷ (flag_words arg ++ codes "-e" ∷ env ∷ split extra)
unfolding run_command
split-run_command aot_file arg env extra h k l =
    let options = flags arg ++ codes " -e " ++ (env ++ codes " " ++ extra) in
    split-checkpoint (bench ++ (aot_file ++ codes " " ++ options))
    ∙ simp
        (
          split-path bench aot_file options bench-NoSpace h,
          split-options arg (env ++ codes " " ++ extra) k,
        )
        (simp append_assoc (simp (split-word_space env extra l)))

-- What MVVM_checkpoint is started with.
abbrev pub checkpoint_argv : Text → List Text → Text → List Text → List Text
checkpoint_argv aot_file arg env rest =
    codes "./MVVM_checkpoint"
    ∷ codes "-t"
    ∷ (bench ++ aot_file)
    ∷ (flag_words arg ++ codes "-e" ∷ env ∷ rest)

-- For a file, arguments and an environment setting that are words, `run` prints its command line
-- and starts MVVM_checkpoint with the file under ./bench/, each argument behind its own -a, the
-- setting behind -e and the words of the extra text, and nothing else happens; the result is the
-- name of the run with the program's output, decoded if it can be.
pub run_lem :
    (h : Host) (aot_file : Text) (arg : List Text) (env extra : Text) (es : Trace)
    → IsWord aot_file
    → All IsWord arg
    → IsWord env
    → (es' : Trace) × (es'
        ≡ completed (checkpoint_argv aot_file arg env (split extra)) none
          ∷ printed (run_command aot_file arg env extra)
          ∷ es)
      × (run h aot_file arg env extra es
          ≡ (ok (exec_name env aot_file arg, decode_or_raw h (h.stdout es')), es'))
unfolding run
run_lem h aot_file arg env extra es k l m =
    (_, refl, simp (split-run_command aot_file arg env extra k l m))

checkpoint_command-eq :
    (aot_file : Text) (arg : List Text) (env : Text)
    → run_checkpoint_command aot_file arg env ≡ run_command aot_file arg env (codes "-c 100000")
unfolding run_checkpoint_command run_command
checkpoint_command-eq aot_file arg env = simp append_assoc

split-count : split (codes "-c 100000") ≡ codes "-c" ∷ codes "100000" ∷ []
unfolding split
split-count = refl

pub split-run_checkpoint_command :
    (aot_file : Text) (arg : List Text) (env : Text)
    → IsWord aot_file
    → All IsWord arg
    → IsWord env
    → split (run_checkpoint_command aot_file arg env)
      ≡ checkpoint_argv aot_file arg env (codes "-c" ∷ codes "100000" ∷ [])
split-run_checkpoint_command aot_file arg env k l m =
    ap split (checkpoint_command-eq aot_file arg env)
    ∙ split-run_command aot_file arg env (codes "-c 100000") k l m
    ∙ ap (checkpoint_argv aot_file arg env) split-count

split-restore :
    (t : Text)
    → split (codes "./MVVM_restore -t " ++ t) ≡ codes "./MVVM_restore" ∷ codes "-t" ∷ split t
unfolding split
split-restore t = refl

pub split-restore_command :
    (aot_file : Text)
    → IsWord aot_file
    → split (codes "./MVVM_restore -t ./bench/" ++ aot_file)
      ≡ codes "./MVVM_restore" ∷ codes "-t" ∷ (bench ++ aot_file) ∷ []
split-restore_command aot_file k =
    split-restore (bench ++ aot_file)
    ∙ simp (split-word (bench ++ aot_file) (IsWord-append bench aot_file bench-NoSpace k))
