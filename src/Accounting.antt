-- ===== src/Accounting.antt =====
-- src/bms/domain/accounting: the journals, the balances of the accounts, and the closing of periods.
pub mod Models
pub mod Validation
pub mod Posting
pub mod Balances
pub mod Periods
pub mod Port
