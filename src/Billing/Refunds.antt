-- ===== src/Billing/Refunds.antt =====
-- `create_refund` of src/bms/domain/billing/service.py.
pub mod Return
pub mod Writing
