-- ===== src/Api.antt =====
-- broker/api.py: the requests of the Open Service Broker API.
mod Catalog
mod Provision
mod Deprovision
mod Branches
mod Update
mod Poll
pub mod Keeps
pub mod Exclusive
pub mod Served
pub mod Made
pub mod Sequence
pub mod Queued
pub mod Enqueued
pub mod Committed
unfoldable pub use Catalog.*
unfoldable pub use Provision.*
unfoldable pub use Deprovision.*
unfoldable pub use Branches.*
unfoldable pub use Update.*
unfoldable pub use Poll.*
