-- ===== src/Reporting.antt =====
-- src/bms/domain/reporting: reports that are added up from the record files.
pub mod Models
pub mod Payloads
pub mod Documents
pub mod Availability
pub mod Revenue
pub mod Ledger
pub mod Stock
