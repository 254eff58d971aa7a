-- ===== src/Inventory/Stock/Average.antt =====
-- The weighted average, and what it leaves of the value.
use bms_gui.Prelude.{
  ◌≡◌, ℕ, suc, zero, floor_div, ℤ, pos, negsuc, ◌+ℤ◌, ◌*ℤ◌, ◌≤ℤ◌, ◌<ℤ◌, arith, floor_div-mul-le,
  lt-floor_div-mul,
}
use bms_gui.Inventory.Stock.{average_of}

average_of-pos :
    (k : ℕ) (value : ℤ) → average_of (pos (suc k)) value ≡ floor_div value (pos (suc k))
unfolding average_of
average_of-pos k value = ground arith

-- The weighted average unit cost of a positive stock is the value over the stock, rounded down: it
-- leaves nothing negative, and one more would be above the value.
pub average_of-floor :
    (quantity value : ℤ)
    → pos 1 ≤ℤ quantity
    → (average_of quantity value *ℤ quantity ≤ℤ value)
      × (value <ℤ (average_of quantity value +ℤ pos 1) *ℤ quantity)
average_of-floor (pos zero) value h = absurd (ground arith)
average_of-floor (pos (suc k)) value h =
    rw (average_of-pos k value) (floor_div-mul-le value k, lt-floor_div-mul value k)
average_of-floor (negsuc k) value h = absurd (ground arith)
