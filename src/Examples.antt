-- ===== src/Examples.antt =====
-- Concrete inputs of the theorems, which show that their hypotheses can hold.
pub mod Server
pub mod Setup
pub mod Heads
pub mod Pages
pub mod Summaries
pub mod Records
pub mod Readers
pub mod Merges
pub mod Builds
mod Writes
mod Workers
mod Stores
mod Parsed
