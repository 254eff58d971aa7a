-- ===== src/Billing/Tax/Bounds.antt =====
-- How the tax is rounded.
use bms_gui.Prelude.{
  ◌≡◌, ap, pos_part, neg_part, ℤ, pos, ◌+ℤ◌, ◌*ℤ◌, ◌≤ℤ◌, ◌<ℤ◌, int_laws, floor_div-mul-le,
  lt-floor_div-mul, *ℤ_parts, +ℤ-*ℤ,
}
use bms_gui.Billing.Tax.{calculate_tax}

-- The tax is the amount times the rate over 10000, rounded down: 10000 taxes are at most the
-- product, and 10000 taxes and one more are above it.
pub calculate_tax-floor :
    (subtotal rate : ℤ)
    → (calculate_tax subtotal rate *ℤ pos 10000 ≤ℤ subtotal *ℤ rate)
      × (subtotal *ℤ rate <ℤ (calculate_tax subtotal rate +ℤ pos 1) *ℤ pos 10000)
unfolding calculate_tax
calculate_tax-floor subtotal rate =
    (floor_div-mul-le (subtotal *ℤ rate) 9999, lt-floor_div-mul (subtotal *ℤ rate) 9999)

split_lem :
    (f g h x y z : ℤ)
    → z ≡ x +ℤ y
    → f *ℤ pos 10000 ≤ℤ x
    → g *ℤ pos 10000 ≤ℤ y
    → z <ℤ (h +ℤ pos 1) *ℤ pos 10000
    → f +ℤ g ≤ℤ h
split_lem f g h x y z e a b c = omega (
  int_laws,
  ap pos_part e,
  ap neg_part e,
  *ℤ_parts f (pos 10000),
  *ℤ_parts g (pos 10000),
  *ℤ_parts (h +ℤ pos 1) (pos 10000),
)

-- The taxes on two amounts at one rate are together at most the tax on their sum.
pub calculate_tax-split :
    (s t r : ℤ) → calculate_tax s r +ℤ calculate_tax t r ≤ℤ calculate_tax (s +ℤ t) r
calculate_tax-split s t r =
    let (low_s, _) = calculate_tax-floor s r in
    let (low_t, _) = calculate_tax-floor t r in
    let (_, high) = calculate_tax-floor (s +ℤ t) r in
    let same = +ℤ-*ℤ s t r in
    split_lem (calculate_tax s r) (calculate_tax t r) (calculate_tax (s +ℤ t) r) (s *ℤ r) (t *ℤ r)
      ((s +ℤ t) *ℤ r) same low_s low_t high
