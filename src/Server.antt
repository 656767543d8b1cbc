-- ===== src/Server.antt =====
-- src/rpc.rs: the JSON-RPC server over a pinned backend. A text is the list of its bytes, and an
-- error code is its number without the minus sign.
pub mod Selector
pub mod Dispatch
