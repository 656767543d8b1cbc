-- ===== src/Worker.antt =====
-- src/worker: the edge worker, which reads the same archive within one request.
pub mod Reader
pub mod Object
pub mod Gateway
pub mod Dispatch
pub mod Selector
