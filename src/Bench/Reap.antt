-- ===== src/Bench/Reap.antt =====
-- artifact/common_util.py: the wait for a started program that `run_restore`,
-- `run_criu_checkpoint` and `run_criu_restore` each contain.
use anonymous_repo.Prelude.{ℕ, Bool, ◌+◌, zero, suc, true, false, ltb, out_of_fuel}
use anonymous_repo.Bench.Host.{
  Host, Action, slept, polled, awaited, terminated, killed, waited, ◌>>=◌, ◌>>◌, pure, fail, emit,
  ask,
}

-- What is done with a program that takes too long.
unfoldable pub stop : Host → Action (Unit {0})
stop h = do
  emit terminated
  emit (awaited 1000)
  gone ← ask h.finished
  elim gone [ true ↦ pure tt | false ↦ do emit killed; emit waited ]

-- `time.time() - start_time > 20`
unfoldable pub timed_out : ℕ → ℕ → Bool
timed_out start_time time = ltb (start_time + 20000) time

-- The round after `time.time()` has been read, with the rounds that follow.
unfoldable pub after_clock : Host → Action (Unit {0}) → Bool → Action (Unit {0})
after_clock h again true = stop h
after_clock h again false = do emit (slept 100); again

-- The round after `proc.poll()`.
unfoldable pub after_poll : Host → ℕ → Action (Unit {0}) → Bool → Action (Unit {0})
after_poll h start_time again true = pure tt
after_poll h start_time again false = do
  time ← ask h.now
  after_clock h again (timed_out start_time time)

-- `while True`, with the number of rounds that the model allows.
unfoldable pub reap_from : Host → ℕ → ℕ → Action (Unit {0})
reap_from h start_time zero = fail out_of_fuel
reap_from h start_time (suc rounds) = do
  emit polled
  done ← ask h.finished
  after_poll h start_time (reap_from h start_time rounds) done

-- From `start_time = time.time()` to the end of the loop. Each round sleeps for a tenth of a second,
-- so there are 202 rounds at most.
unfoldable pub reap : Host → Action (Unit {0})
unfolding reap_from stop after_clock after_poll timed_out
reap h = do start_time ← ask h.now; reap_from h start_time 202
