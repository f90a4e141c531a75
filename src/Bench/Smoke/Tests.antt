-- ===== src/Bench/Smoke/Tests.antt =====
-- The theorems on the smoke tests at concrete inputs.
use anonymous_repo.Prelude.{◌≡◌, if◌then◌else◌, ok, err, index_error, List, [], ◌∷◌, length, leb}
use anonymous_repo.Text.Str.{Text, codes}
use anonymous_repo.Bench.Smoke.{
  run_each, tcp_migrate_server_once, all_events, emitted, run_each-all_events,
}

abbrev indices : List Text
indices = codes "14" ∷ codes "15" ∷ codes "15" ∷ []

-- Two times for three indices.
run_each-all_events_example :
    run_each (tcp_migrate_server_once (codes "/mvvm")) indices (codes "0" ∷ codes "0" ∷ []) [] ≡ (
      if leb (length indices) (length (codes "0" ∷ codes "0" ∷ [])) then ok tt else err index_error,
      emitted
          (all_events
            (tcp_migrate_server_once (codes "/mvvm"))
            indices
            (codes "0" ∷ codes "0" ∷ []))
          [],
    )
run_each-all_events_example =
    run_each-all_events (tcp_migrate_server_once (codes "/mvvm")) indices
      (codes "0" ∷ codes "0" ∷ []) []
