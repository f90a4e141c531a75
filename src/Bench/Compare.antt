-- ===== src/Bench/Compare.antt =====
-- The comparison scripts of artifact/: bench_comparison.py, bench_comparison_mac.py,
-- bench_comparison_gapbs.py, bench_comparison_gapbs_mac.py, bench_mac.py and bench_windows.py.
pub mod Elapsed
pub mod Rows
pub mod Jobs
pub mod Submitted
pub mod Turns
pub mod Comparison
pub mod ComparisonMac
pub mod Gapbs
pub mod GapbsMac
pub mod Mac
pub mod Windows
pub mod Times
pub mod Lines
pub mod Hours
pub mod Csv
pub mod Aligned
mod Tests
