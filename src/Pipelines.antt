-- ===== src/Pipelines.antt =====
-- broker/pipelines: each queue function, as the list of the tasks that it chains.
mod Calls
mod Alb
mod Cdn
mod Moves
mod Queues
pub mod Order
pub mod Protocol
unfoldable pub use Calls.*
unfoldable pub use Alb.*
unfoldable pub use Cdn.*
unfoldable pub use Moves.*
unfoldable pub use Queues.*
