-- ===== src/Cdn.antt =====
-- broker/lib/cdn.py: the parameters of CDN instances.
mod Settings
mod Provision
mod Update
mod Migrate
pub mod Same
unfoldable pub use Settings.*
unfoldable pub use Provision.*
unfoldable pub use Update.*
unfoldable pub use Migrate.*
