-- ===== src/Billing/Invoices.antt =====
-- `create_invoice` of src/bms/domain/billing/service.py.
pub mod Sale
pub mod Stock
pub mod Writing
