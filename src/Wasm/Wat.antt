-- ===== src/Wasm/Wat.antt =====
-- `wat_to_inst`: from the text form of a module, as wasm2wat prints it, to the instruction file.
pub mod Defs
pub mod Shape
pub mod Module
pub mod Places
pub mod Gathered
pub mod BareImport
pub mod Emits
pub mod OpLines
pub mod Written
pub mod RoundTrip
