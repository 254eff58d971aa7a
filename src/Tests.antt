-- ===== src/Tests.antt =====
-- Concrete runs of the services.
mod Facade
mod Backup
mod Runtime
pub mod Setup
pub mod Ledger
pub mod Stock
pub mod Sales
pub mod Access
pub mod History
pub mod Recovery
pub mod Reports
