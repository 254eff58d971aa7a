-- ===== src/Billing/Invoices/Stock.antt =====
-- The stock that an invoice needs.
use bms_gui.Prelude.{String, not, none, some, List, [], ◌∷◌, ℤ, pos, ◌+ℤ◌, ◌*ℤ◌, ltb_ℤ}
use bms_gui.Dict.{Dict, lookup_or, insert}
use bms_gui.Dict.Keys.{string_key}
use bms_gui.Fields.{◌&◌}
use bms_gui.Result.{Result, ok, err, billing_error, ◌>>=◌, ◌>>◌, fail_if, check_each, collect}
use bms_gui.Store.{World}
use bms_gui.Inventory.Port.{InventoryPort}
use bms_gui.Billing.Models.{InvoiceLineCommand, CreateInvoiceCommand}

-- The quantity that the lines need of each item.
unfoldable pub add_required : Dict String ℤ → List InvoiceLineCommand → Dict String ℤ
add_required required [] = required
add_required required (line ∷ lines) =
    add_required
      (insert line.item_id (lookup_or line.item_id (pos 0) required +ℤ line.quantity) required)
      lines

module _ (inventory : InventoryPort) where
  -- The checks of one item.
  unfoldable pub check_available : World → String × ℤ → Result (Unit {0})
  check_available w (item_id, required_quantity) = inventory.get_item item_id w >>= λ found.
      elim found [
        | none ↦ err (billing_error ("unknown item " & item_id))
        | some item ↦
            fail_if (not item.active) (billing_error ("inactive item " & item_id))
            >> (inventory.get_stock_on_hand item_id w >>= λ available.
                fail_if (ltb_ℤ available required_quantity)
                  (billing_error ("insufficient stock for item " & item_id)))
      ]

  -- `_validate_stock_available`
  unfoldable pub validate_stock_available : CreateInvoiceCommand → World → Result (Unit {0})
  validate_stock_available command w =
      check_each (add_required [] command.lines) (check_available w)

  -- The cost of the goods of a line, at the weighted average.
  unfoldable pub line_cogs : World → InvoiceLineCommand → Result ℤ
  line_cogs w line = inventory.get_weighted_average_unit_cost_minor line.item_id w >>= λ unit_cost.
      ok (line.quantity *ℤ unit_cost)

  unfoldable pub cogs_by_line : CreateInvoiceCommand → World → Result (List ℤ)
  cogs_by_line command w = collect (line_cogs w) command.lines
