-- ===== src/Bench/NoRows.antt =====
-- The rows of `run_mvvm` of artifact/bench_policy.py, bench_policy_mac.py and
-- bench_policy_multithread.py.
use anonymous_repo.Prelude.{
  ◌≡◌, refl, ◌∙◌, ap, Bool, false, List, [], ◌∷◌, any, ok, err, Error, type_error, if◌then◌else◌,
  ◌⊎◌, inl, inr, Bool-cases, Result-cases, arith,
}
use anonymous_repo.Text.Str.{Text, codes, text_eq, split_on}
use anonymous_repo.Text.Edit.{is_in}
use anonymous_repo.Bench.Host.{Output, str, raw}
use anonymous_repo.Bench.Command.{aot_variant}
use anonymous_repo.Bench.Policy.{
  scan_lines, Buckets, classify, classify_all, collect, zip_buckets, no_results, policy_rows,
}

-- No variant that is run is the one that `results_5` is for.
classify-results_5 :
    (third exec exec_time a : Text) (b : Buckets)
    → text_eq a (codes "-ckpt-loop-dirty.aot") ≡ false
    → (classify third exec exec_time a b).results_5 ≡ b.results_5
unfolding classify
classify-results_5 third exec exec_time a b h = ground arith

-- Whether a list of variants has that one.
abbrev has_dirty : List Text → Bool
has_dirty vs = any (λ a. text_eq a (codes "-ckpt-loop-dirty.aot")) vs

classify_all-results_5 :
    (third exec exec_time : Text) (vs : List Text) (b : Buckets)
    → has_dirty vs ≡ false
    → (classify_all third exec exec_time vs b).results_5 ≡ b.results_5
unfolding classify_all
classify_all-results_5 third exec exec_time [] b h = refl
classify_all-results_5 third exec exec_time (a ∷ vs) b h =
    let here : text_eq a (codes "-ckpt-loop-dirty.aot") ≡ false = ground arith in
    let there : has_dirty vs ≡ false = ground arith in
    let b' = if is_in a exec then classify third exec exec_time a b else b in
    classify_all-results_5 third exec exec_time vs b' there ∙ (elim (Bool-cases (is_in a exec)) [
      | inl e ↦ rw e (classify-results_5 third exec exec_time a b here)
      | inr e ↦ rw e
    ])

aot_variant-has_dirty : has_dirty aot_variant ≡ false
unfolding aot_variant text_eq
aot_variant-has_dirty = refl

collect-results_5 :
    (third : Text) (results1 : List (Text × Output)) (exec_time : Text) (b : Buckets)
    → b.results_5 ≡ []
    → ((e : Error) × (collect third results1 exec_time b ≡ err e))
      ⊎ ((b' : Buckets) × (collect third results1 exec_time b ≡ ok b') × (b'.results_5 ≡ []))
unfolding collect
collect-results_5 third [] exec_time b h = inr (b, refl, h)
collect-results_5 third ((exec, raw bytes) ∷ rest) exec_time b h = inl (type_error, refl)
collect-results_5 third ((exec, str output) ∷ rest) exec_time b h =
    elim (Result-cases (scan_lines (codes "Execution time:") (split_on 10 output) exec_time)) [
      | inl (e, p) ↦ inl (e, rw p)
      | inr (t, p) ↦ rw p (
          collect-results_5 third rest t (classify_all third exec t aot_variant b)
            (classify_all-results_5 third exec t aot_variant b aot_variant-has_dirty ∙ h))
    ]

zip_buckets-nil : (ns as_ bs cs ds es : List Text) → zip_buckets ns as_ bs cs ds es [] ≡ []
unfolding zip_buckets
zip_buckets-nil [] as_ bs cs ds es = refl
zip_buckets-nil (x0 ∷ ns) [] bs cs ds es = refl
zip_buckets-nil (x0 ∷ ns) (x1 ∷ as_) [] cs ds es = refl
zip_buckets-nil (x0 ∷ ns) (x1 ∷ as_) (x2 ∷ bs) [] ds es = refl
zip_buckets-nil (x0 ∷ ns) (x1 ∷ as_) (x2 ∷ bs) (x3 ∷ cs) [] es = refl
zip_buckets-nil (x0 ∷ ns) (x1 ∷ as_) (x2 ∷ bs) (x3 ∷ cs) (x4 ∷ ds) [] = refl
zip_buckets-nil (x0 ∷ ns) (x1 ∷ as_) (x2 ∷ bs) (x3 ∷ cs) (x4 ∷ ds) (x5 ∷ es) = refl

-- Whatever the runs give, `run_mvvm` of the three scripts raises, or returns no row at all: no run
-- is of the variant "-ckpt-loop-dirty.aot", so the last of the lists that are zipped stays empty.
pub policy_rows-nil :
    (third : Text) (results1 : List (Text × Output))
    → ((e : Error) × (policy_rows third results1 ≡ err e)) ⊎ (policy_rows third results1 ≡ ok [])
unfolding policy_rows
policy_rows-nil third results1 = elim (collect-results_5 third results1 [] no_results refl) [
  | inl (e, p) ↦ inl (e, rw p)
  | inr (b, p, q) ↦ inr (
      rw p (
        rw q (
          ap ok
            (zip_buckets-nil b.name b.results_0 b.results_1 b.results_2 b.results_3 b.results_4))))
]
