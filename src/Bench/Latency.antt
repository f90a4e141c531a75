-- ===== src/Bench/Latency.antt =====
-- artifact/ckpt_restore_latency.py: what is read from the CSV files, and the groups of the plots.
pub mod Commands
use anonymous_repo.Prelude.{
  List, [], ◌∷◌, Result, map, filter_if, Bool, ◌||◌, not, ok, err, value_error, if◌then◌else◌,
  ◌>>=◌,
}
use anonymous_repo.Text.Str.{Text, codes, strip, text_eq}
use anonymous_repo.Bench.Compare.Jobs.{remove_all}
use anonymous_repo.Bench.Compare.Elapsed.{Floats, read_from_csv}
use anonymous_repo.Bench.Averages.{group_from}
use anonymous_repo.Text.Edit.{replace}

-- `read_from_csv`: the name and two numbers.
unfoldable pub read_csv : (F : Floats) → List (List Text) → Result (List (Text × List F.Value))
unfolding read_from_csv
read_csv F rows = read_from_csv F 2 rows

-- The key of a workload in `plot`.
unfoldable pub label : Text → Text
unfolding remove_all strip
label workload = strip (
    remove_all
      (codes "OMP_NUM_THREADS="
        ∷ codes "-g15"
        ∷ codes "-n300"
        ∷ codes " -f "
        ∷ codes "-vn300"
        ∷ codes "maze-6404.txt"
        ∷ codes "stories110M.bin"
        ∷ codes "-z tokenizer.bin -t 0.0"
        ∷ [])
      workload)

-- `workloads` of `plot`.
unfoldable pub plot_groups : {V : Type 0} → List (Text × V) → List (Text × List V)
unfolding label group_from
plot_groups rows = group_from [] (map (λ row. (label row.0, row.1)) rows)

-- The key of a workload in `plot_qemu`.
unfoldable pub label_qemu : Text → Text
unfolding remove_all strip
label_qemu workload = strip (
    remove_all
      (codes "OMP_NUM_THREADS="
        ∷ codes "-g20"
        ∷ codes "-n300"
        ∷ codes " -f "
        ∷ codes "-vn300"
        ∷ codes "maze-6404.txt"
        ∷ codes "stories110M.bin"
        ∷ codes "-z tokenizer.bin -t 0.0"
        ∷ [])
      workload)

-- `workloads` of `plot_qemu`: rows of two zeros are left out.
unfoldable pub plot_qemu_groups :
    {V : Type 0} → (V → Bool) → List (Text × V × V) → List (Text × List (V × V))
unfolding label_qemu group_from
plot_qemu_groups is_zero rows = group_from [] (
    map (λ row. (label_qemu row.0, (row.1, row.2)))
      (filter_if (λ row. not (is_zero row.1) || not (is_zero row.2)) rows))

-- The key of a workload of MVVM in `plot_whole`.
unfoldable pub label_mvvm : Text → Text
unfolding remove_all replace strip
label_mvvm workload =
    let t = remove_all (codes "OMP_NUM_THREADS=2" ∷ codes "OMP_NUM_THREADS=4" ∷ []) workload in
    strip (
      remove_all
        (codes "stories15M.bin"
          ∷ codes "-g15"
          ∷ codes "-n300"
          ∷ codes " -f "
          ∷ codes "-vn300"
          ∷ codes "maze-6404.txt"
          ∷ codes "stories110M.bin"
          ∷ codes ".aot"
          ∷ codes "-z tokenizer.bin -t 0.0"
          ∷ [])
        (replace (codes "hdastar") (codes "hda") t))

-- The key of a workload of CRIU and QEMU in `plot_whole`.
unfoldable pub label_criu : Text → Text
unfolding remove_all replace strip
label_criu workload =
    let t = remove_all (codes "OMP_NUM_THREADS=2" ∷ codes "OMP_NUM_THREADS=4" ∷ []) workload in
    strip (
      remove_all
        (codes "stories15M.bin"
          ∷ codes "-g15"
          ∷ codes "-n300"
          ∷ codes " -f "
          ∷ codes "-vn300"
          ∷ codes "maze-6404.txt"
          ∷ codes "stories110M.bin"
          ∷ codes "-z tokenizer.bin -t 0.0"
          ∷ [])
        (replace (codes "hdastar") (codes "hda") t))

-- `workloads`, `workloads_criu` and `workloads_qemu` of `plot_whole`.
unfoldable pub plot_whole_groups :
    {V : Type 0} → (Text → Text) → List (Text × V) → List (Text × List V)
unfolding group_from
plot_whole_groups label_of rows = group_from [] (map (λ row. (label_of row.0, row.1)) rows)

-- `workloads_criu[workload]` of a `defaultdict`.
unfoldable pub group_of : {V : Type 0} → Text → List (Text × List V) → List V
unfolding text_eq
group_of workload [] = []
group_of workload ((k, vs) ∷ d) =
    let rest = group_of workload d in if text_eq k workload then vs else rest

-- `a, b = zip(*times)`, which raises ValueError for no times.
unfoldable pub unzipped : {V : Type 0} → List V → Result (List V)
unzipped [] = err value_error
unzipped (v ∷ vs) = ok (v ∷ vs)

-- `for workload, times in workloads.items()`: the times of the three systems for each workload of MVVM.
unfoldable pub joined :
    {V : Type 0}
    → List (Text × List V)
    → List (Text × List V)
    → List (Text × List V)
    → Result (List (Text × List V × List V × List V))
unfolding group_of unzipped
joined [] criu qemu = ok []
joined ((workload, times) ∷ workloads) criu qemu = do
  mvvm_times ← unzipped times
  criu_times ← unzipped (group_of workload criu)
  qemu_times ← unzipped (group_of workload qemu)
  rest ← joined workloads criu qemu
  ok ((workload, mvvm_times, criu_times, qemu_times) ∷ rest)

-- `plot_whole` up to the statistics.
unfoldable pub plot_whole :
    {V : Type 0}
    → List (Text × V)
    → List (Text × V)
    → List (Text × V)
    → Result (List (Text × List V × List V × List V))
unfolding label_mvvm label_criu plot_whole_groups joined
plot_whole result_mvvm result_criu result_qemu =
    joined (plot_whole_groups label_mvvm result_mvvm) (plot_whole_groups label_criu result_criu)
      (plot_whole_groups label_criu result_qemu)
