-- ===== src/Text.antt =====
-- Python's `str`, and what the program does with it: methods, lines, integers.
pub mod Str
pub mod Words
pub mod Number
pub mod Decimal
pub mod Digits
mod Tests
pub mod Edit
pub mod Split
