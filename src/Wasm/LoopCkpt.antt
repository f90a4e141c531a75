-- ===== src/Wasm/LoopCkpt.antt =====
-- `LoopCkptPass`: which loops need no checkpoint of their own.
pub mod Pass
pub mod Spec
pub mod Marks
pub mod Result
pub mod Safety
