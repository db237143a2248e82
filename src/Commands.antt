-- ===== src/Commands.antt =====
-- broker/commands: maintenance that an operator starts.
pub mod Duplicates
pub mod Old
pub mod Kept
mod Examples
