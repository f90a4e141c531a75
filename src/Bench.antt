-- ===== src/Bench.antt =====
-- The measurement scripts of artifact/.
pub mod Host
pub mod Command
pub mod Run
pub mod Reap
pub mod Migrate
pub mod Tiers
pub mod Argv
pub mod Ends
pub mod Trials
pub mod Burst
pub mod Policy
pub mod Tables
pub mod LoopCounter
pub mod FuncIndex
pub mod Clock
pub mod Averages
pub mod FirstTrial
pub mod NoRows
pub mod Compare
pub mod UseCases
pub mod Latency
pub mod Memory
pub mod Smoke
mod Tests
