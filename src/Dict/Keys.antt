-- ===== src/Dict/Keys.antt =====
-- The keys in use: texts, and pairs of an item and a unit price.
use bms_gui.Prelude.{
  ◌≡◌, ◌↔◌, Bool, true, ◌&&◌, String, ℤ, str_eq, eqb_ℤ, eqb_ℤ_iff, eq_iff, arith, [], ◌∷◌,
  if◌then◌else◌,
}
use Prim.Native.String.{compare}
use text.Mathlib.Text.{is_le}
use bms_gui.Dict.{Eq, Dict}

instance abbrev pub string_key : Eq String
string_key = record { beq = str_eq; beq_iff = eq_iff }

abbrev pub LineKey : Type 0
LineKey = String × ℤ

abbrev pub line_key_eq : LineKey → LineKey → Bool
line_key_eq a b = str_eq a.0 b.0 && eqb_ℤ a.1 b.1

pub line_key_eq_iff : (a b : LineKey) → (line_key_eq a b ≡ true) ↔ (a ≡ b)
line_key_eq_iff (a, x) (b, y) = ground (arith, eq_iff a b, eqb_ℤ_iff x y)

instance abbrev pub line_key : Eq LineKey
line_key = record { beq = line_key_eq; beq_iff = line_key_eq_iff }

-- An invoice, an item and a unit price.
abbrev pub SoldKey : Type 0
SoldKey = String × String × ℤ

abbrev pub sold_key_eq : SoldKey → SoldKey → Bool
sold_key_eq a b = str_eq a.0 b.0 && str_eq a.1 b.1 && eqb_ℤ a.2 b.2

pub sold_key_eq_iff : (a b : SoldKey) → (sold_key_eq a b ≡ true) ↔ (a ≡ b)
sold_key_eq_iff (a, s, x) (b, t, y) = ground (arith, eq_iff a b, eq_iff s t, eqb_ℤ_iff x y)

instance abbrev pub sold_key : Eq SoldKey
sold_key = record { beq = sold_key_eq; beq_iff = sold_key_eq_iff }

-- Python's order of texts, by code points.
abbrev pub str_le : String → String → Bool
str_le s t = is_le (compare s t)

abbrev pub insert_item {ℓ} : {V : Type ℓ} → String × V → Dict String V → Dict String V
insert_item p [] = p ∷ []
insert_item p (q ∷ d) = if str_le p.0 q.0 then p ∷ q ∷ d else q ∷ insert_item p d

-- `sorted(d.items())`, where the keys are distinct.
unfoldable pub sorted_items {ℓ} : {V : Type ℓ} → Dict String V → Dict String V
sorted_items [] = []
sorted_items (p ∷ d) = insert_item p (sorted_items d)
