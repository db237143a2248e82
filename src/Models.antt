-- ===== src/Models.antt =====
-- broker/models.py: the rows of the database, the session, and what the models compute.
mod Rows
mod Store
mod Types
mod Change
pub mod Post
unfoldable pub use Rows.*
unfoldable pub use Store.*
unfoldable pub use Types.*
unfoldable pub use Change.*
