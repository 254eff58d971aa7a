-- ===== src/Inventory/Models.antt =====
-- src/bms/domain/inventory/models.py.
use bms_gui.Prelude.{String, Bool, true, false, ℤ}

pub data StockMovementType : Type 0 where
  stock_in stock_out adjustment : StockMovementType

-- The value of the enumeration.
abbrev pub type_value : StockMovementType → String
type_value stock_in = "stock_in"
type_value stock_out = "stock_out"
type_value adjustment = "adjustment"

abbrev pub is_stock_in : StockMovementType → Bool
is_stock_in stock_in = true
is_stock_in _ = false

abbrev pub is_stock_out : StockMovementType → Bool
is_stock_out stock_out = true
is_stock_out _ = false

pub record Item : Type 0 where
  pub item_id : String
  pub sku : String
  pub name : String
  pub active : Bool
  pub business_unit : String

pub record StockMovementCommand : Type 0 where
  pub movement_id : String
  pub item_id : String
  pub movement_type : StockMovementType
  pub quantity_delta : ℤ
  pub timestamp : String
  pub actor_id : String
  pub reason : String
  pub source_module : String
  pub source_document_id : String
  pub correlation_id : String
  pub unit_cost_minor : ℤ
  pub period_id : String

pub record StockMovementResult : Type 0 where
  pub movement_id : String
  pub item_id : String
  pub quantity_delta : ℤ
  pub quantity_on_hand : ℤ
  pub unit_cost_minor : ℤ
  pub value_delta_minor : ℤ
  pub inventory_value_after_minor : ℤ
