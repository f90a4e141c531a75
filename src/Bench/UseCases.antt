-- ===== src/Bench/UseCases.antt =====
-- artifact/usecase_burst_computing.py and artifact/usecase_optimistic_computing.py: what `plot_time`
-- reads from the recorded outputs.
pub mod Tried
pub mod Leaves
pub mod Timeline
pub mod Samples
pub mod Invariant
pub mod SameLength
pub mod BurstComputing
pub mod OptimisticComputing
pub mod BurstRuns
pub mod OptimisticRuns
mod Tests
