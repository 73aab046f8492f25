-- ===== src/Worker.antt =====
-- internal/worker/worker.go: what the worker does with a queue message.
pub mod Defs
pub mod Decode
pub mod Attempts
pub mod Settle
pub mod Run
