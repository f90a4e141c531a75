-- ===== src/Metadata.antt =====
-- src/create_mvvm_metadata.py: the addresses of the marked instructions of an object file.
pub mod Defs
pub mod Reads
mod Tests
