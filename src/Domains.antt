-- ===== src/Domains.antt =====
-- The class `UniqueDomains` of broker/validators.py, and `validate_domain_name_changes` of
-- broker/lib/utils.py
mod Unique
pub mod Holders
unfoldable pub use Unique.*
