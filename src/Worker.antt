-- ===== src/Worker.antt =====
-- broker/tasks/huey.py and broker/tasks/update_operations.py: how huey runs a pipeline.
mod Steps
mod Hooks
mod Runs
pub mod Endings
pub mod Failures
pub mod Deactivated
unfoldable pub use Steps.*
unfoldable pub use Hooks.*
unfoldable pub use Runs.*
