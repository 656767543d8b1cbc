-- ===== src/Store.antt =====
-- src/store.rs: where objects and heads are kept.
pub mod Memory
pub mod Immutable
