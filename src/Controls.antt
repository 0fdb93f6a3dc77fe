-- ===== src/Controls.antt =====
-- src/pr_controls.rs: the contracts of the pull request controls.
pub mod Approval
pub mod Validate
pub mod Render
pub mod Run
mod Tests
