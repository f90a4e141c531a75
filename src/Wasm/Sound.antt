-- ===== src/Wasm/Sound.antt =====
-- Whatever the parser accepts is allowed by the grammar, and the fuel is enough.
pub mod Reads
pub mod Ops
pub mod Program
pub mod Balance
