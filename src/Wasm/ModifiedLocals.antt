-- ===== src/Wasm/ModifiedLocals.antt =====
-- `ModifiedLocalsPass`: which locals the body of each loop assigns.
pub mod Pass
pub mod Spec
pub mod Marks
pub mod Result
