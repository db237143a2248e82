-- ===== src/Utils.antt =====
-- broker/lib/utils.py
mod Parse
pub mod Headers
unfoldable pub use Parse.*
