-- ===== src/Bench/Ends.antt =====
-- The wait of artifact/common_util.py for a started program comes to an end.
use anonymous_repo.Prelude.{
  ℕ, ◌+◌, ◌*◌, ◌≤◌, ◌<◌, zero, suc, ◌≡◌, true, false, ◌∷◌, arith, Bool-cases, inl, inr, ok,
}
use anonymous_repo.Bench.Host.{
  Host, Trace, slept, polled, awaited, terminated, killed, waited, Event,
}
use anonymous_repo.Bench.Reap.{timed_out, stop, after_clock, after_poll, reap_from, reap}

-- The clock does not go back, and a sleep takes at least its time.
pub record Ticks (h : Host) : Type 0 where
  pub forward : (e : Event) (es : Trace) → h.now es ≤ h.now (e ∷ es)
  pub sleeps : (t : ℕ) (es : Trace) → h.now es + t ≤ h.now (slept t ∷ es)

-- Rounds of `poll()` and a tenth of a second of sleep, after a trace.
pub data Polls (before : Trace) : Trace → Type 0 where
  first : Polls before before
  again : {es : Trace} → Polls before es → Polls before (slept 100 ∷ polled ∷ es)

-- How a wait ends that began at the time `start`, after the trace `before`.
pub data Ended (h : Host) (start : ℕ) (before : Trace) : Trace → Type 0 where
  -- A poll finds that the program has finished.
  exited :
      {es : Trace}
      → Polls before es
      → h.finished (polled ∷ es) ≡ true
      → Ended h start before (polled ∷ es)
  -- More than 20 seconds have passed, and it finishes within a second of `terminate()`.
  stopped :
      {es : Trace}
      → Polls before es
      → start + 20000 < h.now (polled ∷ es)
      → h.finished (awaited 1000 ∷ terminated ∷ polled ∷ es) ≡ true
      → Ended h start before (awaited 1000 ∷ terminated ∷ polled ∷ es)
  -- It does not, and is killed and waited for.
  forced :
      {es : Trace}
      → Polls before es
      → start + 20000 < h.now (polled ∷ es)
      → h.finished (awaited 1000 ∷ terminated ∷ polled ∷ es) ≡ false
      → Ended h start before (waited ∷ killed ∷ awaited 1000 ∷ terminated ∷ polled ∷ es)

late-lt : (start time : ℕ) → timed_out start time ≡ true → start + 20000 < time
unfolding timed_out
late-lt start time e = ground arith

early-le : (start time : ℕ) → timed_out start time ≡ false → time ≤ start + 20000
unfolding timed_out
early-le start time e = ground arith

module _ (h : Host) (start : ℕ) (before : Trace) where
  stop-Ended :
      {es : Trace}
      → Polls before es
      → start + 20000 < h.now (polled ∷ es)
      → (es' : Trace) × (stop h (polled ∷ es) ≡ (ok tt, es')) × Ended h start before es'
  unfolding stop
  stop-Ended {es} p late =
      elim (Bool-cases (h.finished (awaited 1000 ∷ terminated ∷ polled ∷ es))) [
        | inl e ↦ (_, rw e, Ended.stopped p late e)
        | inr e ↦ (_, rw e, Ended.forced p late e)
      ]

  reap_from-Ended :
      (rounds : ℕ) {es : Trace}
      → Ticks h
      → Polls before es
      → 1 ≤ rounds
      → start + 20100 < h.now es + 100 * rounds
      → (es' : Trace) × (reap_from h start rounds es ≡ (ok tt, es')) × Ended h start before es'
  unfolding reap_from after_clock after_poll
  reap_from-Ended zero t p k l = absurd (omega arith)
  reap_from-Ended (suc rounds) {es} t p k l = elim (Bool-cases (h.finished (polled ∷ es))) [
    | inl e ↦ (_, rw e, Ended.exited p e)
    | inr e ↦ elim (Bool-cases (timed_out start (h.now (polled ∷ es)))) [
      | inl late ↦ rw (e, late) (stop-Ended p (late-lt start (h.now (polled ∷ es)) late))
      | inr early ↦
          let a = t.forward polled es in
          let c = early-le start (h.now (polled ∷ es)) early in
          let b = t.sleeps 100 (polled ∷ es) in
          rw (e, early) (reap_from-Ended rounds t (again p) (ground arith) (ground arith))
    ]
  ]

-- Where the clock does not go back and a sleep takes its time, the wait raises nothing and ends:
-- after rounds of poll and sleep, a poll finds that the program has finished, or more than
-- 20 seconds have passed and the program is terminated, and killed and waited for exactly when it
-- has not finished a second later.
pub reap-Ended :
    (h : Host) (es : Trace)
    → Ticks h
    → (es' : Trace) × (reap h es ≡ (ok tt, es')) × Ended h (h.now es) es es'
unfolding reap
reap-Ended h es t = reap_from-Ended h (h.now es) es 202 t first (omega arith) (omega arith)
