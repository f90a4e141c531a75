-- ===== src/Bench/Smoke.antt =====
-- artifact/test_sock.py and artifact/test_multithread.py: the commands for each function index. The
-- indices and the times are given as they stand in the commands. In run_sock_client_once two commands
-- come before the time is looked up, so it is not a script of `run_each` and is left out.
use anonymous_repo.Prelude.{
  ℕ, suc, ◌≡◌, refl, ◌∙◌, sym, true, false, Option, none, some, List, [], ◌∷◌, ◌++◌, length, leb,
  if◌then◌else◌, arith, ok, err, index_error, value_error, assertion_error, ℤ, pos, ◌==ℤ◌,
  Bool-cases, inl, inr,
}
use anonymous_repo.Text.Str.{Text, codes}
use anonymous_repo.Text.Number.{parse_int}
use anonymous_repo.Bench.Host.{Event, system, Trace, Action, next_action, ◌>>◌, pure, fail, emit}
mod Tests

-- Events one after the other.
unfoldable pub emit_all : List Event → Action (Unit {0})
emit_all [] = pure tt
emit_all (e ∷ es) = do emit e; emit_all es

-- `for idx, i in enumerate(funcs)` with `func_times[idx]`.
unfoldable pub run_each : (Text → Text → List Event) → List Text → List Text → Action (Unit {0})
unfolding emit_all
run_each script [] times = pure tt
run_each script (i ∷ funcs) [] = fail index_error
run_each script (i ∷ funcs) (t ∷ times) = do emit_all (script i t); run_each script funcs times

-- The arguments that stop at call `t` of function `i`.
unfoldable pub at_call : Text → Text → Text
at_call i t = codes " -f " ++ (i ++ (codes " -x " ++ (t ++ codes " -i")))

-- What the loop of each function does for index `i` with the time `t`.
module _ (pwd : Text) where
  unfoldable pub sock_server_once : Text → Text → List Event
  unfolding at_call
  sock_server_once i t =
      system (
        codes "ssh 172.17.0.2 "
        ++ (pwd ++ (codes "/MVVM_checkpoint -t test/server.aot" ++ (at_call i t ++ codes " &"))))
      ∷ system (pwd ++ (codes "/MVVM_checkpoint -t " ++ (pwd ++ codes "/test/client.aot &")))
      ∷ system (pwd ++ codes "/MVVM_restore -t test/server.aot")
      ∷ system (codes "ssh 172.17.0.2 pkill MVVM_checkpoint")
      ∷ system (codes "pkill MVVM_checkpoint")
      ∷ system (codes "pkill MVVM_restore")
      ∷ []

  -- run_sock_server_migrate_once and run_sock_client_migrate_once have the same commands.
  unfoldable pub sock_migrate_once : Text → Text → List Event
  unfolding at_call
  sock_migrate_once i t =
      system
        (codes "ssh 172.17.0.2 MVVM_checkpoint -t test/server.aot" ++ (at_call i t ++ codes " &"))
      ∷ system (codes "./gateway/gateway &")
      ∷ system (pwd ++ codes "/MVVM_checkpoint -t test/client.aot")
      ∷ system (
          codes "ssh 172.17.0.3 "
          ++ (pwd
              ++ (codes "/MVVM_restore -t "
                  ++ (pwd ++ (codes "/test/server.aot" ++ (at_call i t ++ codes " &"))))))
      ∷ system (codes "ssh 172.17.0.3 pkill MVVM_checkpoint")
      ∷ system (codes "pkill MVVM_checkpoint")
      ∷ system (codes "pkill MVVM_restore")
      ∷ []

  unfoldable pub tcp_server_once : Text → Text → List Event
  unfolding at_call
  tcp_server_once i t =
      system (
        pwd ++ (codes "/MVVM_checkpoint -t " ++ (pwd ++ (codes "/test/server.aot" ++ at_call i t))))
      ∷ system (
          codes " "
          ++ (pwd
              ++ (codes "/MVVM_checkpoint -t " ++ (pwd ++ (codes "/test/client.aot -c " ++ i)))))
      ∷ system
          (codes " " ++ (pwd ++ (codes "/MVVM_restore -t " ++ (pwd ++ codes "/test/client.aot"))))
      ∷ []

  unfoldable pub tcp_client_once : Text → Text → List Event
  unfolding at_call
  tcp_client_once i t =
      system (
        pwd
        ++ (codes "/MVVM_checkpoint -t "
            ++ (pwd ++ (codes "/test/client.aot" ++ (at_call i t ++ codes " &")))))
      ∷ system
          (pwd ++ (codes "/MVVM_checkpoint -t " ++ (pwd ++ (codes "/test/sever.aot -c " ++ i))))
      ∷ system (pwd ++ (codes "/MVVM_restore -t " ++ (pwd ++ codes "/test/client.aot")))
      ∷ []

  -- The command for the gateway has no value in place of the braces.
  unfoldable pub tcp_migrate_client_once : Text → Text → List Event
  unfolding at_call
  tcp_migrate_client_once i t =
      system (
        pwd ++ (codes "/MVVM_checkpoint -t " ++ (pwd ++ (codes "/test/server.aot" ++ at_call i t))))
      ∷ system (codes "{pwd}/gateway &")
      ∷ system
          (pwd ++ (codes "/MVVM_checkpoint -t " ++ (pwd ++ (codes "/test/client.aot -c " ++ i))))
      ∷ system (pwd ++ (codes "/MVVM_restore -t " ++ (pwd ++ codes "/test/client.aot")))
      ∷ []

  unfoldable pub tcp_migrate_server_once : Text → Text → List Event
  unfolding at_call
  tcp_migrate_server_once i t =
      system (
        pwd ++ (codes "/MVVM_checkpoint -t " ++ (pwd ++ (codes "/test/server.aot" ++ at_call i t))))
      ∷ system (pwd ++ codes "/gateway &")
      ∷ system (
          codes " "
          ++ (pwd
              ++ (codes "/MVVM_checkpoint -t " ++ (pwd ++ (codes "/test/client.aot -c " ++ i)))))
      ∷ system
          (codes " " ++ (pwd ++ (codes "/MVVM_restore -t " ++ (pwd ++ codes "/test/client.aot"))))
      ∷ []

-- The two commands of test_multithread.py and test_fd.py, for a program.
unfoldable pub local_once : Text → Text → Text → List Event
unfolding at_call
local_once program i t =
    system (codes "./MVVM_checkpoint -t ./test/" ++ (program ++ (codes ".aot" ++ at_call i t)))
    ∷ system (codes "./MVVM_restore -t ./test/" ++ (program ++ codes ".aot"))
    ∷ []

-- `assert int(open("test1.txt").read()) == n`, from what the file holds.
abbrev pub assert_number : Option ℤ → ℤ → Action (Unit {0})
assert_number none n = fail value_error
assert_number (some z) n = if z ==ℤ n then pure tt else fail assertion_error

unfoldable pub run_mutex_once : (Trace → Text) → List Text → List Text → Action (Unit {0})
unfolding run_each local_once
run_mutex_once read funcs times es =
    next_action (run_each (local_once (codes "mutex")) funcs times es)
      (λ _ fs. assert_number (parse_int (read fs)) (pos 40000) fs)

unfoldable pub run_multi_thread_once : (Trace → Text) → List Text → List Text → Action (Unit {0})
unfolding run_each local_once
run_multi_thread_once read funcs times es =
    next_action (run_each (local_once (codes "multi-thread")) funcs times es)
      (λ _ fs. assert_number (parse_int (read fs)) (pos 4000) fs)

-- The commands of all pairs of an index and a time, and the trace with them.
abbrev pub all_events : (Text → Text → List Event) → List Text → List Text → List Event
all_events script (i ∷ funcs) (t ∷ times) = script i t ++ all_events script funcs times
all_events script _ _ = []

abbrev pub emitted : List Event → Trace → Trace
emitted [] es = es
emitted (e ∷ evs) es = emitted evs (e ∷ es)

emitted-append :
    (evs more : List Event) (es : Trace) → emitted (evs ++ more) es ≡ emitted more (emitted evs es)
emitted-append [] more es = refl
emitted-append (e ∷ evs) more es = emitted-append evs more (e ∷ es)

emit_all-emitted : (evs : List Event) (es : Trace) → emit_all evs es ≡ (ok tt, emitted evs es)
unfolding emit_all
emit_all-emitted [] es = refl
emit_all-emitted (e ∷ evs) es = emit_all-emitted evs (e ∷ es)

leb-suc : (m n : ℕ) → leb (suc m) (suc n) ≡ leb m n
leb-suc m n = elim (Bool-cases (leb m n)) [
  | inl e ↦ let s : leb (suc m) (suc n) ≡ true = ground arith in s ∙ sym e
  | inr e ↦ let s : leb (suc m) (suc n) ≡ false = ground arith in s ∙ sym e
]

-- The commands of each index are run in turn, with the time at its place; IndexError is raised exactly
-- when there are more indices than times, after the commands of those that have one.
pub run_each-all_events :
    (script : Text → Text → List Event) (funcs times : List Text) (es : Trace)
    → run_each script funcs times es ≡ (
      if leb (length funcs) (length times) then ok tt else err index_error,
      emitted (all_events script funcs times) es,
    )
unfolding run_each
run_each-all_events script [] times es =
    let l : leb 0 (length times) ≡ true = ground arith in rw l refl
run_each-all_events script (i ∷ funcs) [] es =
    let l : leb (suc (length funcs)) 0 ≡ false = ground arith in rw l refl
run_each-all_events script (i ∷ funcs) (t ∷ times) es =
    let rest = run_each-all_events script funcs times (emitted (script i t) es) in
    let l : leb (suc (length funcs)) (suc (length times)) ≡ leb (length funcs) (length times) =
      leb-suc (length funcs) (length times) in
    rw (emit_all-emitted (script i t) es) rw l rw
      (emitted-append (script i t) (all_events script funcs times) es) rest
