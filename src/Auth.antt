-- ===== src/Auth.antt =====
-- src/bms/app/auth.py: users, their roles, and what each role may do.
pub mod Identity
pub mod Policy
