-- ===== src/Bench/FirstTrial.antt =====
-- The averages of artifact/common_util.py depend on the first row of each workload alone.
use anonymous_repo.Prelude.{
  suc, ◌≡◌, refl, ◌∙◌, ap, Bool, true, false, List, [], ◌∷◌, ◌++◌, map, length, any, if◌then◌else◌,
  Bool-cases, inl, inr, arith, filter_if, not,
}
use anonymous_repo.Text.Str.{Text, text_eq}
use anonymous_repo.Bench.Averages.{
  add_totals, Number, append_to, group_from, Policies, total_from, averages, normalize,
  calculate_averages, normalize_comparison, is_left_out, calculate_averages_comparison, CounterRow,
  SnapshotRow, normalize_loop_counter, normalize_snapshot, calculate_loop_counter_averages,
  calculate_loop_counter_snapshot_averages,
}

-- Only the first entry of each key; the keys of `seen` have gone before.
module _ {V : Type 0} where
  unfoldable pub first_entries : List Text → List (Text × V) → List (Text × V)
  first_entries seen [] = []
  first_entries seen ((k, v) ∷ rows) =
      (if any (λ j. text_eq j k) seen then [] else (k, v) ∷ [])
      ++ first_entries (if any (λ j. text_eq j k) seen then seen else seen ++ k ∷ []) rows

  -- Two dictionaries with the same keys and the same first value under each.
  pub data SameFirsts : List (Text × List V) → List (Text × List V) → Type 0 where
    both_empty : SameFirsts [] []
    both_have :
        (k : Text) (v : V) (vs ws : List V) {d e : List (Text × List V)}
        → SameFirsts d e
        → SameFirsts ((k, v ∷ vs) ∷ d) ((k, v ∷ ws) ∷ e)

  abbrev keys : List (Text × List V) → List Text
  keys d = map (λ t. t.0) d

  abbrev has_key : Text → List (Text × List V) → Bool
  has_key k d = any (λ j. text_eq j k) (keys d)

  append_to-old :
      (k : Text) (v : V) {d e : List (Text × List V)}
      → SameFirsts d e
      → has_key k d ≡ true
      → SameFirsts (append_to k v d) e × (keys (append_to k v d) ≡ keys d)
  unfolding append_to
  append_to-old k v both_empty h = absurd (ground arith)
  append_to-old k v (both_have j w vs ws {d} {e} s) h = elim (Bool-cases (text_eq j k)) [
    | inl p ↦ rw p (both_have j w (vs ++ v ∷ []) ws s, refl)
    | inr p ↦
        let h' : has_key k d ≡ true = ground arith in
        let (a, b) = append_to-old k v s h' in rw p (both_have j w vs ws a, ap (λ l. j ∷ l) b)
  ]

  append_to-new :
      (k : Text) (v : V) {d e : List (Text × List V)}
      → SameFirsts d e
      → has_key k d ≡ false
      → SameFirsts (append_to k v d) (append_to k v e) × (keys (append_to k v d) ≡ keys d ++ k ∷ [])
  unfolding append_to
  append_to-new k v both_empty h = (both_have k v [] [] both_empty, refl)
  append_to-new k v (both_have j w vs ws {d} {e} s) h =
      let p : text_eq j k ≡ false = ground arith in
      let h' : has_key k d ≡ false = ground arith in
      let (a, b) = append_to-new k v s h' in rw p (both_have j w vs ws a, ap (λ l. j ∷ l) b)

  group_from-SameFirsts :
      (rows : List (Text × V)) (seen : List Text) {d e : List (Text × List V)}
      → SameFirsts d e
      → keys d ≡ seen
      → SameFirsts (group_from d rows) (group_from e (first_entries seen rows))
  unfolding group_from first_entries
  group_from-SameFirsts [] seen s q = s
  group_from-SameFirsts ((k, v) ∷ rows) seen {d} {e} s q =
      elim (Bool-cases (any (λ j. text_eq j k) seen)) [
        | inl p ↦
            let (a, b) = append_to-old k v s (ap (any (λ j. text_eq j k)) q ∙ p) in
            rw p (group_from-SameFirsts rows seen a (b ∙ q))
        | inr p ↦
            let (a, b) = append_to-new k v s (ap (any (λ j. text_eq j k)) q ∙ p) in
            rw p (group_from-SameFirsts rows (seen ++ k ∷ []) a (b ∙ ap (λ l. l ++ k ∷ []) q))
      ]

  length-SameFirsts : {d e : List (Text × List V)} → SameFirsts d e → length d ≡ length e
  length-SameFirsts both_empty = refl
  length-SameFirsts (both_have k v vs ws s) = ap suc (length-SameFirsts s)

total_from-SameFirsts :
    (N : Number) {d e : List (Text × List (Policies N))} (totals : Policies N)
    → SameFirsts d e
    → total_from N d totals ≡ total_from N e totals
unfolding total_from
total_from-SameFirsts N totals both_empty = refl
total_from-SameFirsts N totals (both_have k v vs ws s) =
    total_from-SameFirsts N (add_totals N v totals) s

averages-first :
    (N : Number) (rows : List (Text × Policies N))
    → averages N rows ≡ averages N (first_entries [] rows)
unfolding averages
averages-first N rows =
    let s = group_from-SameFirsts rows [] both_empty refl in
    rw (total_from-SameFirsts N [] s, length-SameFirsts s)

-- Whatever the numbers are, `calculate_averages` and its three variants are the same for their
-- normalized rows as for the first of these rows of each workload: the rows of every later trial
-- are read, normalized and left out of the average.
pub calculate_averages-first :
    (N : Number) (results : List (Text × N.Value × N.Value × N.Value × N.Value × N.Value))
    (counters : List (CounterRow N)) (snapshots : List (SnapshotRow N))
    → (calculate_averages N results ≡ averages N (first_entries [] (map (normalize N) results)))
      × (calculate_averages_comparison N results
          ≡ averages N (
              first_entries []
                (map (normalize_comparison N) (filter_if (λ r. not (is_left_out N r.0)) results))))
      × (calculate_loop_counter_averages N counters
          ≡ averages N (first_entries [] (map (normalize_loop_counter N) counters)))
      × (calculate_loop_counter_snapshot_averages N snapshots
          ≡ averages N (first_entries [] (map (normalize_snapshot N) snapshots)))
unfolding calculate_averages calculate_averages_comparison calculate_loop_counter_averages
    calculate_loop_counter_snapshot_averages
calculate_averages-first N results counters snapshots = (
  averages-first N (map (normalize N) results),
  averages-first N
      (map (normalize_comparison N) (filter_if (λ r. not (is_left_out N r.0)) results)),
  averages-first N (map (normalize_loop_counter N) counters),
  averages-first N (map (normalize_snapshot N) snapshots),
)
