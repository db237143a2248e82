-- ===== src/Cron.antt =====
-- broker/tasks/cron.py
mod Renewals
mod Stalled
unfoldable pub use Renewals.*
unfoldable pub use Stalled.*
