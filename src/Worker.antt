-- ===== src/Worker.antt =====
-- src/worker.rs: the pure parts of the worker and its pause for an approval.
pub mod Pause
mod Tests
