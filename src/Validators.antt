-- ===== src/Validators.antt =====
-- broker/validators.py and broker/dns.py
mod Cname
pub mod Chains
mod Inputs
pub mod Tokens
unfoldable pub use Cname.*
unfoldable pub use Inputs.*
