-- ===== src/Bench/UseCases/Samples.antt =====
-- The other loops of `plot_time`: the samples of processor and memory use that ps has written.
use anonymous_repo.Prelude.{ℕ, Option, some, List, [], ◌∷◌, ◌++◌, get_elem?, if◌then◌else◌, pos}
use anonymous_repo.Text.Str.{Text, codes, split_on}
use anonymous_repo.Text.Edit.{is_in}
use anonymous_repo.Wasm.Wat.Defs.{minus}
use anonymous_repo.Bench.Clock.{parse_time_no_msec}
use anonymous_repo.Bench.UseCases.Tried.{
  Tried, went, raised, kept, with_value, value_of, from_end, applied, Times,
}

-- `xs[-1] = v`
unfoldable pub set_last : {V : Type 0} → V → List V → List V
set_last v [] = []
set_last v (x ∷ []) = v ∷ []
set_last v (x ∷ y ∷ xs) = x ∷ set_last v (y ∷ xs)

module _ (N : Times) where
  -- The lists that a loop appends to.
  pub record Samples : Type 0 where
    pub times : List N.Value
    pub cpu : List N.Value
    pub memory : List N.Value

  -- `float(line.split(" ")[i])`
  unfoldable pub column : ℕ → Text → Option N.Value
  unfolding split_on
  column i line = applied N.float (get_elem? (split_on 32 line) i)

  -- `parse_time_no_msec(line.split(" ")[3]) - offset`
  unfoldable pub stamp : ℕ → Text → Option N.Value
  unfolding parse_time_no_msec split_on minus
  stamp offset line =
      applied
        (λ w. applied (λ z. some (N.of_seconds (minus z offset))) (value_of (parse_time_no_msec w)))
        (get_elem? (split_on 32 line) 3)

  -- A sample above 10 per cent: three appends, each of which may raise behind the ones before it.
  unfoldable pub busy : N.Value → Text → Samples → Tried Samples
  unfolding column from_end
  busy c line s =
      let s₁ : Samples = record s { cpu = s.cpu ++ c ∷ [] } in
      with_value s₁ (column 5 line) (λ m.
        let s₂ : Samples = record s₁ { memory = s.memory ++ m ∷ [] } in
        with_value s₂ (from_end 0 s.times)
          (λ t. went (record s₂ { times = s.times ++ N.plus_half t ∷ [] })))

  -- The body of a loop; `idle` is what it does at another sample.
  unfoldable pub sample : (Samples → Tried Samples) → ℕ → Text → Samples → Tried Samples
  unfolding is_in stamp column busy
  sample idle offset line s =
      if is_in (codes "2024") line
      then with_value s (stamp offset line) (λ t. went (record {
        times = s.times ++ t ∷ [];
        cpu = s.cpu ++ N.of_seconds (pos 0) ∷ [];
        memory = s.memory ++ N.of_seconds (pos 0) ∷ [];
      }))
      else with_value s (column 2 line) (λ c. if N.is_busy c then busy c line s else idle s)

  unfoldable pub samples : (Samples → Tried Samples) → ℕ → List Text → Samples → Samples
  unfolding sample
  samples idle offset [] s = s
  samples idle offset (line ∷ lines) s =
      samples idle offset lines (kept (sample idle offset line s))

  abbrev pub no_samples : Samples
  no_samples = record { times = []; cpu = []; memory = [] }

  -- usecase_burst_computing.py does nothing at another sample.
  abbrev pub burst_idle : Samples → Tried Samples
  burst_idle s = went s

  -- usecase_optimistic_computing.py moves the last time on.
  unfoldable pub optimistic_idle : Samples → Tried Samples
  unfolding from_end set_last
  optimistic_idle s =
      with_value s (from_end 0 s.times)
        (λ t. went (record s { times = set_last (N.plus_half t) s.times }))

  -- Its first loop means the times of the other lists, which are empty until it has ended: IndexError.
  abbrev pub optimistic_first_idle : Samples → Tried Samples
  optimistic_first_idle s = raised s

  -- The four loops of usecase_optimistic_computing.py, over the lines of the files: what is drawn in red
  -- and in blue.
  unfoldable pub optimistic_samples :
      List Text → List Text → List Text → List Text → Samples × Samples
  unfolding samples optimistic_idle
  optimistic_samples checkpoint1 checkpoint restore1 restore =
      let first = samples optimistic_first_idle 0 checkpoint1 no_samples in
      let second = samples optimistic_idle 0 checkpoint no_samples in
      let third = samples optimistic_idle 0 restore1 second in
      (first, samples optimistic_idle 0 restore third)

  -- `for aot in texts` and `for line in aot.split("\n")`
  unfoldable pub lines_of : List Text → List Text
  unfolding split_on
  lines_of [] = []
  lines_of (t ∷ texts) = split_on 10 t ++ lines_of texts

  -- The four loops of usecase_burst_computing.py. The last two take each file as one line. The times of
  -- the first loop are drawn with the samples of the second, and the other way round.
  unfoldable pub burst_samples : List Text → List Text → List Text → List Text → Samples × Samples
  unfolding samples lines_of
  burst_samples aot_energy aot_ps aot1_energy aot1_ps =
      let first = samples burst_idle 0 (lines_of aot_ps) no_samples in
      let second = samples burst_idle 10 (lines_of aot_energy) no_samples in
      let mixed : Samples = record {
        times = first.times;
        cpu = second.cpu;
        memory = second.memory;
      } in
      let third = samples burst_idle 0 aot1_ps mixed in
      (
        samples burst_idle 0 aot1_energy third,
        record { times = second.times; cpu = first.cpu; memory = first.memory },
      )
