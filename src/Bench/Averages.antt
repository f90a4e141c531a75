-- ===== src/Bench/Averages.antt =====
-- artifact/common_util.py: `calculate_averages`, `calculate_averages_comparison`,
-- `calculate_loop_counter_averages` and `calculate_loop_counter_snapshot_averages`.
use anonymous_repo.Prelude.{
  not, filter_if, ℕ, Bool, ◌||◌, List, [], ◌∷◌, ◌++◌, map, length, Result, ok, err, ◌>>=◌,
  index_error, if◌then◌else◌,
}
use anonymous_repo.Text.Str.{Text, codes, text_eq}
use anonymous_repo.Text.Edit.{is_in}

-- Python's numbers, with division by a number that is not zero.
pub record Number : Type 1 where
  pub Value : Type 0
  pub of_nat : ℕ → Value
  pub add : Value → Value → Value
  pub divide : Value → Value → Value
  pub is_zero : Value → Bool

-- A dictionary as the list of its entries in the order of insertion.
module _ {V : Type 0} where
  -- `workload_normalized[workload].append(v)`
  unfoldable pub append_to : Text → V → List (Text × List V) → List (Text × List V)
  append_to k v [] = (k, v ∷ []) ∷ []
  append_to k v ((j, vs) ∷ d) =
      let rest = append_to k v d in if text_eq j k then (j, vs ++ v ∷ []) ∷ d else (j, vs) ∷ rest

  -- Step 1, from the entries of the rows.
  unfoldable pub group_from : List (Text × List V) → List (Text × V) → List (Text × List V)
  unfolding append_to
  group_from d [] = d
  group_from d ((k, v) ∷ rows) = group_from (append_to k v d) rows

module _ (N : Number) where
  -- The policies of a row, with their normalized values.
  abbrev pub Policies : Type 0
  Policies = List (Text × N.Value)

  -- `x / y if y else 0`
  unfoldable pub ratio : N.Value → N.Value → N.Value
  ratio x y = if N.is_zero y then N.of_nat 0 else N.divide x y

  -- `total_averages[policy] += value`, of a `defaultdict(float)`
  unfoldable pub add_total : Text → N.Value → Policies → Policies
  add_total p x [] = (p, N.add (N.of_nat 0) x) ∷ []
  add_total p x ((q, y) ∷ totals) =
      let rest = add_total p x totals in
      if text_eq q p then (q, N.add y x) ∷ totals else (q, y) ∷ rest

  -- `for policy, values in policies[0].items()`
  unfoldable pub add_totals : Policies → Policies → Policies
  unfolding add_total
  add_totals [] totals = totals
  add_totals ((p, x) ∷ policies) totals = add_totals policies (add_total p x totals)

  -- `for workload, policies in workload_normalized.items()`
  unfoldable pub total_from : List (Text × List Policies) → Policies → Result Policies
  unfolding add_totals
  total_from [] totals = ok totals
  total_from ((k, []) ∷ d) totals = err index_error
  total_from ((k, policies ∷ later) ∷ d) totals = total_from d (add_totals policies totals)

  -- The averages of rows that are already normalized: the steps that the four functions share.
  unfoldable pub averages : List (Text × Policies) → Result Policies
  averages rows = do
    let workload_normalized = group_from [] rows
    totals ← total_from workload_normalized []
    ok (map (λ t. (t.0, N.divide t.1 (N.of_nat (length workload_normalized)))) totals)

  -- `calculate_averages` of rows (workload, aot, pure, stack, loop, loop_dirty)
  unfoldable pub normalize :
      Text × N.Value × N.Value × N.Value × N.Value × N.Value → Text × Policies
  unfolding ratio
  normalize (workload, aot, pure_, stack, loop_, loop_dirty) = (
    workload,
    (codes "pure", N.of_nat 1)
        ∷ (codes "aot", ratio aot pure_)
        ∷ (codes "stack", ratio stack pure_)
        ∷ (codes "loop", ratio loop_ pure_)
        ∷ (codes "loop_dirty", ratio loop_dirty pure_)
        ∷ [],
  )

  unfoldable pub calculate_averages :
      List (Text × N.Value × N.Value × N.Value × N.Value × N.Value) → Result Policies
  unfolding normalize averages
  calculate_averages results = averages (map normalize results)

  -- `calculate_averages_comparison` of rows (workload, mvvm, hcontainer, qemu_x86_64, qemu_aarch64,
  -- native), without the workloads that hold "sp", "lu" or "tc".
  unfoldable pub normalize_comparison :
      Text × N.Value × N.Value × N.Value × N.Value × N.Value → Text × Policies
  unfolding ratio
  normalize_comparison (workload, mvvm, hcontainer, qemu_x86_64, qemu_aarch64, native) = (
    workload,
    (codes "native", N.of_nat 1)
        ∷ (codes "mvvm", ratio mvvm native)
        ∷ (codes "hcontainer", ratio hcontainer native)
        ∷ (codes "qemu_x86_64", ratio qemu_x86_64 native)
        ∷ (codes "qemu_aarch64", ratio qemu_aarch64 native)
        ∷ [],
  )

  unfoldable pub is_left_out : Text → Bool
  unfolding is_in
  is_left_out workload =
      is_in (codes "sp") workload || is_in (codes "lu") workload || is_in (codes "tc") workload

  unfoldable pub calculate_averages_comparison :
      List (Text × N.Value × N.Value × N.Value × N.Value × N.Value) → Result Policies
  unfolding normalize_comparison averages is_left_out
  calculate_averages_comparison results =
      averages (map normalize_comparison (filter_if (λ r. not (is_left_out r.0)) results))

  -- A row of `calculate_loop_counter_averages`.
  abbrev pub CounterRow : Type 0
  CounterRow =
      Text × N.Value × N.Value × N.Value × N.Value × N.Value × N.Value × N.Value × N.Value × N.Value

  unfoldable pub normalize_loop_counter : CounterRow → Text × Policies
  unfolding ratio
  normalize_loop_counter (workload, c1, c4, c8, c16, c20, c30, pgo, aot, pure_) = (
    workload,
    (codes "ckptloopcounter1", ratio c1 pure_)
        ∷ (codes "ckptloopcounter4", ratio c4 pure_)
        ∷ (codes "ckptloopcounter8", ratio c8 pure_)
        ∷ (codes "ckptloopcounter16", ratio c16 pure_)
        ∷ (codes "ckptloopcounter20", ratio c20 pure_)
        ∷ (codes "ckptloopcounter30", ratio c30 pure_)
        ∷ (codes "ckptlooppgo", ratio pgo pure_)
        ∷ (codes "aot", ratio aot pure_)
        ∷ (codes "pure", N.of_nat 1)
        ∷ [],
  )

  unfoldable pub calculate_loop_counter_averages : List CounterRow → Result Policies
  unfolding normalize_loop_counter averages
  calculate_loop_counter_averages results = averages (map normalize_loop_counter results)

  -- A row of `calculate_loop_counter_snapshot_averages`, whose baseline is its first value.
  abbrev pub SnapshotRow : Type 0
  SnapshotRow = Text × N.Value × N.Value × N.Value × N.Value × N.Value × N.Value

  unfoldable pub normalize_snapshot : SnapshotRow → Text × Policies
  unfolding ratio
  normalize_snapshot (workload, c1, c4, c8, c16, c20, c30) = (
    workload,
    (codes "ckptloopcounter1", N.of_nat 1)
        ∷ (codes "ckptloopcounter4", ratio c4 c1)
        ∷ (codes "ckptloopcounter8", ratio c8 c1)
        ∷ (codes "ckptloopcounter16", ratio c16 c1)
        ∷ (codes "ckptloopcounter20", ratio c20 c1)
        ∷ (codes "ckptloopcounter30", ratio c30 c1)
        ∷ [],
  )

  unfoldable pub calculate_loop_counter_snapshot_averages : List SnapshotRow → Result Policies
  unfolding normalize_snapshot averages
  calculate_loop_counter_snapshot_averages results = averages (map normalize_snapshot results)
