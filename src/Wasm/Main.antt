-- ===== src/Wasm/Main.antt =====
-- The `__main__` part of wasm_static_analysis.py: from the arguments to the files that are written.
pub mod Defs
pub mod Frames
pub mod Report
mod Tests
