-- ===== src/Wasm.antt =====
-- wasm_static_analysis.py: from the text form of a module to an instruction file, the parser of
-- that file, the three passes over the tree, and the files that they leave.
pub mod Token
pub mod Syntax
pub mod Stream
pub mod Parser
pub mod Grammar
pub mod Complete
pub mod Sound
pub mod IntSet
pub mod Wat
pub mod Main
pub mod SimpleFunc
pub mod ModifiedLocals
pub mod LoopCkpt
mod Tests
