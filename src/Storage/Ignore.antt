-- ===== src/Storage/Ignore.antt =====
-- engine/storage/ignore_rules.cpp: the rules of a .veritasignore file.
pub mod Texts
pub mod Glob
pub mod Splits
pub mod Matching
pub mod Validate
pub mod Rules
pub mod Policy
pub mod Preview
pub mod Tests
