-- ===== src/Recovery.antt =====
-- src/bms/app/startup.py and src/bms/app/recovery.py: what the application does with a log that
-- holds unfinished transactions.
pub mod Startup
pub mod Effects
pub mod Pending
pub mod Automatic
pub mod Reconcile
pub mod Resolve
pub mod Report
pub mod Kept
