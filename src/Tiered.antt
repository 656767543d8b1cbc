-- ===== src/Tiered.antt =====
-- src/tiered.rs: publication, compaction, and the protocol by which they share the head.
pub mod Compaction
pub mod Publication
pub mod Records
pub mod Protocol
pub mod Reader
pub mod Collect
