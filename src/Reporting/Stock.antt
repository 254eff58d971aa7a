-- ===== src/Reporting/Stock.antt =====
-- `get_stock_report` of src/bms/domain/reporting/service.py.
use bms_gui.Prelude.{String, Bool, ℤ, pos, ltb_ℤ, leb_ℤ, sort_by}
use bms_gui.Dict.{Dict, lookup_or, values}
use bms_gui.Dict.Keys.{string_key, str_le}
use bms_gui.Result.{Result, ok, reporting_error, ◌>>=◌, ◌>>◌, fail_if, collect}
use bms_gui.Store.{Env, World}
use bms_gui.Inventory.Models.{Item}
use bms_gui.Inventory.Items.{get_items}
use bms_gui.Inventory.Stock.{
  get_all_stock_on_hand, get_inventory_value_minor, get_weighted_average_unit_cost_minor,
}
use bms_gui.Reporting.Models.{StockReportRow, StockReport}

abbrev pub stock_row_le : StockReportRow → StockReportRow → Bool
stock_row_le a b = str_le a.sku b.sku

module _ (env : Env) where
  unfoldable pub stock_row : ℤ → Dict String ℤ → World → Item → Result StockReportRow
  stock_row low_stock_threshold quantities w item = do
    average ← get_weighted_average_unit_cost_minor env item.item_id w
    value ← get_inventory_value_minor env item.item_id w
    ok (record {
      item_id = item.item_id;
      sku = item.sku;
      name = item.name;
      business_unit = item.business_unit;
      active = item.active;
      quantity_on_hand = lookup_or item.item_id (pos 0) quantities;
      average_unit_cost_minor = average;
      inventory_value_minor = value;
      low_stock = leb_ℤ (lookup_or item.item_id (pos 0) quantities) low_stock_threshold;
    })

  unfoldable pub get_stock_report : ℤ → World → Result StockReport
  get_stock_report low_stock_threshold w = do
    fail_if (ltb_ℤ low_stock_threshold (pos 0))
        (reporting_error "low_stock_threshold cannot be negative")
    quantities ← get_all_stock_on_hand env w
    registered ← get_items env w
    rows ← collect (stock_row low_stock_threshold quantities w) (values registered)
    ok (record { low_stock_threshold = low_stock_threshold; rows = sort_by stock_row_le rows })
