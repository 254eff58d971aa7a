-- ===== src/Billing.antt =====
-- src/bms/domain/billing: invoices and refunds, over the ports of the inventory and of accounting.
pub mod Kept
pub mod Refused
pub mod Models
pub mod Tax
pub mod Payloads
pub mod Invoices
pub mod Refundable
pub mod Refunds
