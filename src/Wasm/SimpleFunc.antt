-- ===== src/Wasm/SimpleFunc.antt =====
-- `SimpleFuncPass`. The visitors read `simple_func_set` and write the key `simple_func` of the
-- nodes; a node that has the key is not visited again.
pub mod Pass
pub mod Spec
pub mod Marks
pub mod Result
