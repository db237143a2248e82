-- ===== src/Text.antt =====
-- Texts: Python's `str` methods. `upper`, `lower` and `strip` are those of ASCII text: the model
-- takes these methods from `Env`, and they serve as values for its examples.
mod Letters
mod Defs
mod Decimal
pub mod Order
unfoldable pub use Defs.*
unfoldable pub use Decimal.*
