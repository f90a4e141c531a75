-- ===== src/Bench/UseCases/Invariant.antt =====
-- The variables of the first loop of `plot_time`, whatever the recorded output holds.
use anonymous_repo.Prelude.{
  ℕ, zero, suc, ◌+◌, ◌-◌, ◌≡◌, refl, ◌∙◌, ap, ◌&&◌, ◌||◌, some, List, [], ◌∷◌, length,
  length-append, ltb, inl, inr, Option-cases,
}
use anonymous_repo.Text.Str.{Text, codes, split_on}
use anonymous_repo.Text.Edit.{is_in}
use anonymous_repo.Bench.UseCases.Tried.{◌then_do◌, applied, from_end, Times}
use anonymous_repo.Bench.UseCases.Leaves.{
  Leaves, kept-Leaves, went-Leaves, then_do-Leaves, with_value-Leaves, if-Leaves,
}
use anonymous_repo.Bench.UseCases.Timeline.{
  push_at, Timeline, push, push_later, next_state, mark_time, iteration, ttrack, snapshot,
  execution, burst_line, burst_lines, burst_start, trial_line, optimistic_mark, optimistic_line,
  optimistic_lines, optimistic_start,
}

push_at-length :
    {V : Type 0} (i : ℕ) (v : V) (rows new : List (List V))
    → push_at i v rows ≡ some new
    → length new ≡ length rows
unfolding push_at
push_at-length i v [] new h = cc
push_at-length zero v (r ∷ rs) [] h = cc
push_at-length zero v (r ∷ rs) (n ∷ ns) h = cc
push_at-length (suc i) v (r ∷ rs) new h = elim (Option-cases (push_at i v rs)) [
  | inl e ↦ cc
  | inr (rest, e) ↦ let k = push_at-length i v rs rest e in cc
]

module _ (N : Times) (n m : ℕ) where
  -- One time for each state that is left, and as many lists as at the start.
  abbrev pub IsWellFormed : Timeline N → Type 0
  IsWellFormed s = (length s.time ≡ s.state) × (length s.exec_time ≡ n) × (length s.exec_time1 ≡ m)

  push-IsWellFormed :
      (v : N.Value) (s : Timeline N) → IsWellFormed s → Leaves IsWellFormed (push N v s)
  unfolding push
  push-IsWellFormed v s (a, b, c) =
      with_value-Leaves IsWellFormed s (push_at s.state v s.exec_time) _ (a, b, c)
        (λ rows e.
          went-Leaves IsWellFormed (record s { exec_time = rows })
            (a, push_at-length s.state v s.exec_time rows e ∙ b, c))

  push_later-IsWellFormed :
      (v : N.Value) (s : Timeline N) → IsWellFormed s → Leaves IsWellFormed (push_later N v s)
  unfolding push_later
  push_later-IsWellFormed v s (a, b, c) =
      with_value-Leaves IsWellFormed s (push_at (s.state - 5) v s.exec_time1) _ (a, b, c)
        (λ rows e.
          went-Leaves IsWellFormed (record s { exec_time1 = rows })
            (a, b, push_at-length (s.state - 5) v s.exec_time1 rows e ∙ c))

  next_state-IsWellFormed :
      (v : N.Value) (s : Timeline N) → IsWellFormed s → Leaves IsWellFormed (next_state N v s)
  unfolding Leaves
  next_state-IsWellFormed v s (a, b, c) = (length-append s.time (v ∷ []) ∙ ap (λ k. k + 1) a, b, c)

  iteration-IsWellFormed :
      (line : Text) (s : Timeline N) → IsWellFormed s → Leaves IsWellFormed (iteration N line s)
  unfolding iteration
  iteration-IsWellFormed line s h =
      let same = went-Leaves IsWellFormed s h in
      if-Leaves IsWellFormed (is_in (codes "Iteration") line) _ _
        (with_value-Leaves IsWellFormed s _ _ h (λ v e.
          if-Leaves IsWellFormed (N.is_positive v) _ _
            (if-Leaves IsWellFormed (ltb s.state 5) _ _ (push-IsWellFormed v s h)
              (push_later-IsWellFormed v s h))
            same))
        same

  ttrack-IsWellFormed :
      (line : Text) (s : Timeline N) → IsWellFormed s → Leaves IsWellFormed (ttrack N line s)
  unfolding ttrack
  ttrack-IsWellFormed line s h =
      let same = went-Leaves IsWellFormed s h in
      if-Leaves IsWellFormed (is_in (codes "ttrack") line) _ _
        (with_value-Leaves IsWellFormed s _ _ h (λ v e.
          if-Leaves IsWellFormed (N.is_positive v) _ _ (push-IsWellFormed (N.plus_one v) s h) same))
        same

  snapshot-IsWellFormed :
      (line : Text) (s : Timeline N) → IsWellFormed s → Leaves IsWellFormed (snapshot N line s)
  unfolding snapshot
  snapshot-IsWellFormed line s h =
      if-Leaves IsWellFormed (is_in (codes "Snapshot ") line) _ _
        (with_value-Leaves IsWellFormed s (mark_time N line) _ h (λ t e.
          with_value-Leaves IsWellFormed s (applied N.float (from_end 1 (split_on 32 line))) _ h
            (λ d e'. next_state-IsWellFormed (N.minus t d) s h)))
        (went-Leaves IsWellFormed s h)

  execution-IsWellFormed :
      (line : Text) (s : Timeline N) → IsWellFormed s → Leaves IsWellFormed (execution N line s)
  unfolding execution
  execution-IsWellFormed line s h =
      if-Leaves IsWellFormed (is_in (codes "Execution ") line) _ _
        (with_value-Leaves IsWellFormed s _ _ h (λ t e. next_state-IsWellFormed t s h))
        (went-Leaves IsWellFormed s h)

  burst_line-IsWellFormed :
      (line : Text) (s : Timeline N) → IsWellFormed s → IsWellFormed (burst_line N line s)
  unfolding burst_line
  burst_line-IsWellFormed line s h =
      kept-Leaves IsWellFormed
        (iteration N line s then_do λ s₁.
          ttrack N line s₁ then_do λ s₂. snapshot N line s₂ then_do λ s₃. execution N line s₃)
        (then_do-Leaves IsWellFormed (iteration N line s) _ (iteration-IsWellFormed line s h)
          (λ s₁ h₁.
            then_do-Leaves IsWellFormed (ttrack N line s₁) _ (ttrack-IsWellFormed line s₁ h₁)
              (λ s₂ h₂.
                then_do-Leaves IsWellFormed (snapshot N line s₂) _
                  (snapshot-IsWellFormed line s₂ h₂) (λ s₃ h₃. execution-IsWellFormed line s₃ h₃))))

  burst_lines-keep :
      (reu : List Text) (s : Timeline N) → IsWellFormed s → IsWellFormed (burst_lines N reu s)
  unfolding burst_lines
  burst_lines-keep [] s h = h
  burst_lines-keep (line ∷ reu) s h =
      burst_lines-keep reu (burst_line N line s) (burst_line-IsWellFormed line s h)

  trial_line-IsWellFormed :
      (line : Text) (s : Timeline N) → IsWellFormed s → Leaves IsWellFormed (trial_line N line s)
  unfolding trial_line
  trial_line-IsWellFormed line s h =
      let same = went-Leaves IsWellFormed s h in
      if-Leaves IsWellFormed (is_in (codes "Trial") line) _ _
        (with_value-Leaves IsWellFormed s _ _ h (λ v e.
          if-Leaves IsWellFormed (N.is_small v && N.is_positive v) _ _ (push-IsWellFormed v s h)
            same))
        same

  optimistic_mark-IsWellFormed :
      (line : Text) (s : Timeline N)
      → IsWellFormed s
      → Leaves IsWellFormed (optimistic_mark N line s)
  unfolding optimistic_mark
  optimistic_mark-IsWellFormed line s h =
      if-Leaves IsWellFormed (is_in (codes "Snapshot ") line || is_in (codes "Execution ") line) _ _
        (with_value-Leaves IsWellFormed s _ _ h (λ t e. next_state-IsWellFormed t s h))
        (went-Leaves IsWellFormed s h)

  optimistic_lines-keep :
      (reu : List Text) (s : Timeline N) → IsWellFormed s → IsWellFormed (optimistic_lines N reu s)
  unfolding optimistic_lines optimistic_line
  optimistic_lines-keep [] s h = h
  optimistic_lines-keep (line ∷ reu) s h =
      let now =
        kept-Leaves IsWellFormed (trial_line N line s then_do λ s₁. optimistic_mark N line s₁) (
          then_do-Leaves IsWellFormed (trial_line N line s) _ (trial_line-IsWellFormed line s h)
            (λ s₁ h₁. optimistic_mark-IsWellFormed line s₁ h₁)) in
      optimistic_lines-keep reu (optimistic_line N line s) now

-- Whatever lines were recorded, and whichever of them raise an exception midway, the loops of the two
-- scripts end with one time for each state that was left, and with the lists of rounds that they began
-- with: five and four in the first script, four in the second.
pub plot_time-IsWellFormed :
    (N : Times) (reu : List Text)
    → IsWellFormed N 5 4 (burst_lines N reu (burst_start N))
      × IsWellFormed N 4 0 (optimistic_lines N reu (optimistic_start N))
plot_time-IsWellFormed N reu = (
  burst_lines-keep N 5 4 reu (burst_start N) (refl, refl, refl),
  optimistic_lines-keep N 4 0 reu (optimistic_start N) (refl, refl, refl),
)
