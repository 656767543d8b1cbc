-- ===== src/Head.antt =====
-- codec/src/head.rs: the tiered head with its inline manifest, its validation, the keys, and the
-- account encoding.
pub mod Manifest
pub mod Keys
pub mod Account
