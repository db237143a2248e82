-- ===== src/Tasks/Alb.antt =====
-- broker/tasks/alb.py
mod Listeners
mod Steps
pub mod Lowest
pub mod Capacity
unfoldable pub use Listeners.*
unfoldable pub use Steps.*
