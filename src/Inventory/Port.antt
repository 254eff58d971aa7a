-- ===== src/Inventory/Port.antt =====
-- `InventoryPort` of src/bms/domain/inventory/ports.py, and the service as an instance of it.
use bms_gui.Prelude.{String, Bool, Option, ℤ}
use bms_gui.Result.{Result}
use bms_gui.Exec.{Exec}
use bms_gui.Store.{Env, World}
use bms_gui.Inventory.Models.{Item, StockMovementCommand, StockMovementResult}
use bms_gui.Inventory.Items as Items
use bms_gui.Inventory.Stock as Stock
use bms_gui.Inventory.Movements as Movements

pub record InventoryPort : Type 0 where
  pub register_item : Item → String → String → String → Exec World Item
  pub get_item : String → World → Result (Option Item)
  pub commit_movement : StockMovementCommand → Exec World StockMovementResult
  pub get_stock_on_hand : String → World → Result ℤ
  pub get_inventory_value_minor : String → World → Result ℤ
  pub get_weighted_average_unit_cost_minor : String → World → Result ℤ

abbrev pub inventory_service : Env → Bool → InventoryPort
inventory_service env allow_negative_stock = record {
  register_item = Items.register_item env;
  get_item = Items.get_item env;
  commit_movement = Movements.commit_movement env allow_negative_stock;
  get_stock_on_hand = Stock.get_stock_on_hand env;
  get_inventory_value_minor = Stock.get_inventory_value_minor env;
  get_weighted_average_unit_cost_minor = Stock.get_weighted_average_unit_cost_minor env;
}
