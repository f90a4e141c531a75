-- ===== src/Bench/UseCases/Timeline.antt =====
-- The first loop of `plot_time`: the marks of snapshots and ends, and the times of the rounds between.
use anonymous_repo.Prelude.{
  ℕ, zero, suc, ◌+◌, ◌-◌, ◌&&◌, ◌||◌, Option, none, some, List, [], ◌∷◌, ◌++◌, ltb, get_elem?,
  if◌then◌else◌,
}
use anonymous_repo.Text.Str.{Text, codes, split_on}
use anonymous_repo.Text.Edit.{is_in, replace}
use anonymous_repo.Bench.Clock.{parse_time}
use anonymous_repo.Bench.UseCases.Tried.{
  Tried, went, ◌then_do◌, kept, with_value, value_of, from_end, applied, Times,
}

-- `exec_time[i].append(v)`, which raises IndexError out of range.
unfoldable pub push_at : {V : Type 0} → ℕ → V → List (List V) → Option (List (List V))
push_at i v [] = none
push_at zero v (r ∷ rs) = some ((r ++ v ∷ []) ∷ rs)
push_at (suc i) v (r ∷ rs) = applied (λ rest. some (r ∷ rest)) (push_at i v rs)

module _ (N : Times) where
  pub record Timeline : Type 0 where
    pub state : ℕ
    pub time : List N.Value
    pub exec_time : List (List N.Value)
    pub exec_time1 : List (List N.Value)

  -- `exec_time[state].append(v)` and `exec_time1[state - 5].append(v)`.
  unfoldable pub push : N.Value → Timeline → Tried Timeline
  unfolding push_at
  push v s =
      with_value s (push_at s.state v s.exec_time) (λ rows. went (record s { exec_time = rows }))

  unfoldable pub push_later : N.Value → Timeline → Tried Timeline
  unfolding push_at
  push_later v s =
      with_value s (push_at (s.state - 5) v s.exec_time1)
        (λ rows. went (record s { exec_time1 = rows }))

  -- `parse_time(line.split(" ")[1].replace("]", ""))`
  unfoldable pub mark_time : Text → Option N.Value
  unfolding parse_time replace split_on
  mark_time line =
      applied
        (λ w.
          applied (λ z. some (N.of_thousandths z))
            (value_of (parse_time (replace (codes "]") [] w))))
        (get_elem? (split_on 32 line) 1)

  -- `time.append(v)` and `state += 1`
  abbrev pub next_state : N.Value → Timeline → Tried Timeline
  next_state v s = went (record s { time = s.time ++ v ∷ []; state = s.state + 1 })

  -- usecase_burst_computing.py: the four tests of a line.
  unfoldable pub iteration : Text → Timeline → Tried Timeline
  unfolding is_in from_end split_on push push_later
  iteration line s =
      if is_in (codes "Iteration") line
      then with_value s (applied N.float (from_end 1 (split_on 32 line))) (λ v.
        if N.is_positive v then (if ltb s.state 5 then push v s else push_later v s) else went s)
      else went s

  unfoldable pub ttrack : Text → Timeline → Tried Timeline
  unfolding is_in from_end split_on push replace
  ttrack line s =
      if is_in (codes "ttrack") line
      then with_value s
          (applied (λ w. N.float (replace (codes "\\r") [] w)) (from_end 0 (split_on 32 line)))
          (λ v. if N.is_positive v then push (N.plus_one v) s else went s)
      else went s

  unfoldable pub snapshot : Text → Timeline → Tried Timeline
  unfolding is_in from_end split_on mark_time
  snapshot line s =
      if is_in (codes "Snapshot ") line
      then with_value s (mark_time line) (λ t.
        with_value s (applied N.float (from_end 1 (split_on 32 line)))
          (λ d. next_state (N.minus t d) s))
      else went s

  unfoldable pub execution : Text → Timeline → Tried Timeline
  unfolding is_in mark_time
  execution line s =
      if is_in (codes "Execution ") line
      then with_value s (mark_time line) (λ t. next_state t s)
      else went s

  unfoldable pub burst_line : Text → Timeline → Timeline
  unfolding iteration ttrack snapshot execution
  burst_line line s = kept (
      iteration line s then_do λ s₁.
      ttrack line s₁ then_do λ s₂. snapshot line s₂ then_do λ s₃. execution line s₃)

  -- `for line in reu`
  unfoldable pub burst_lines : List Text → Timeline → Timeline
  unfolding burst_line
  burst_lines [] s = s
  burst_lines (line ∷ reu) s = burst_lines reu (burst_line line s)

  abbrev pub burst_start : Timeline
  burst_start = record {
    state = 0;
    time = [];
    exec_time = [] ∷ [] ∷ [] ∷ [] ∷ [] ∷ [];
    exec_time1 = [] ∷ [] ∷ [] ∷ [] ∷ [];
  }

  -- usecase_optimistic_computing.py, whose `exec_time1` is not there.
  unfoldable pub trial_line : Text → Timeline → Tried Timeline
  unfolding is_in from_end split_on push replace
  trial_line line s =
      if is_in (codes "Trial") line
      then with_value s
          (applied (λ w. N.float (replace (codes "\\r") [] w)) (from_end 0 (split_on 32 line)))
          (λ v. if N.is_small v && N.is_positive v then push v s else went s)
      else went s

  unfoldable pub optimistic_mark : Text → Timeline → Tried Timeline
  unfolding is_in mark_time
  optimistic_mark line s =
      if is_in (codes "Snapshot ") line || is_in (codes "Execution ") line
      then with_value s (mark_time line) (λ t. next_state t s)
      else went s

  unfoldable pub optimistic_line : Text → Timeline → Timeline
  unfolding trial_line optimistic_mark
  optimistic_line line s = kept (trial_line line s then_do λ s₁. optimistic_mark line s₁)

  unfoldable pub optimistic_lines : List Text → Timeline → Timeline
  unfolding optimistic_line
  optimistic_lines [] s = s
  optimistic_lines (line ∷ reu) s = optimistic_lines reu (optimistic_line line s)

  abbrev pub optimistic_start : Timeline
  optimistic_start = record {
    state = 0;
    time = [];
    exec_time = [] ∷ [] ∷ [] ∷ [] ∷ [];
    exec_time1 = [];
  }
