-- ===== src/Admin.antt =====
-- services/admin_api: what the dashboard reads and does.
pub mod Refunds
pub mod Refunding
pub mod Overlap
pub mod Settings
pub mod Pending
pub mod Balance
pub mod Lists
pub mod Report
pub mod Handlers
pub mod Rest
pub mod Reading
pub mod LedgerList
pub mod Reports
mod Tests
