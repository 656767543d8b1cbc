-- ===== src/Compact.antt =====
-- src/compact.rs: the k-way merge of adjacent runs, and its read-ahead.
pub mod Merge
pub mod Write
pub mod Runs
pub mod Pages
