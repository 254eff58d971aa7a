-- ===== src/Billing/Tax.antt =====
-- `_calculate_tax` of src/bms/domain/billing/service.py.
pub mod Bounds
use bms_gui.Prelude.{ℤ, pos, ◌*ℤ◌, floor_div}

unfoldable pub calculate_tax : ℤ → ℤ → ℤ
calculate_tax subtotal_minor tax_rate_basis_points =
    floor_div (subtotal_minor *ℤ tax_rate_basis_points) (pos 10000)
