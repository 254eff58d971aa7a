-- ===== src/Tests/Stock.antt =====
-- Runs of the inventory service.
use bms_gui.Prelude.{◌≡◌, refl, pos, ◌+ℤ◌, ltb_ℤ, true, false}
use bms_gui.Result.{Error, ok, err}
use bms_gui.Store.{World, stock_movements, payloads}
use bms_gui.Inventory.Models.{StockMovementResult}
use bms_gui.Inventory.Items.{register_item}
use bms_gui.Inventory.Stock.{stock_of, value_of}
use bms_gui.Inventory.Movements.{commit_movement}
use bms_gui.Inventory.Movements.Written.{
  IsCommitted, commit_movement-IsCommitted, commit_movement-others,
}
use bms_gui.Inventory.Movements.NonNegative.{
  IsStocked, commit_movement-IsStocked, no_movements-IsStocked,
}
use bms_gui.Inventory.Movements.Refused.{commit_movement-negative}
use bms_gui.Tests.Setup.{runs, env, new_world, tea, delivery, large_issue}

abbrev stocked_world : World
stocked_world = (register_item env tea "ann" "2026-01-15T10:00:00Z" "c0" new_world).1

abbrev delivered_world : World
delivered_world = (commit_movement env false delivery stocked_world).1

abbrev delivered : StockMovementResult
delivered = record {
  movement_id = "m1";
  item_id = "tea";
  quantity_delta = pos 5;
  quantity_on_hand = pos 5;
  unit_cost_minor = pos 40;
  value_delta_minor = pos 200;
  inventory_value_after_minor = pos 200;
}

delivery_run : commit_movement env false delivery stocked_world ≡ (ok delivered, delivered_world)
unfolding runs
delivery_run = refl

commit_movement-IsCommitted_example :
    IsCommitted env false delivery stocked_world delivered delivered_world
commit_movement-IsCommitted_example =
    commit_movement-IsCommitted env false delivery stocked_world delivery_run

commit_movement-others_example :
    (stock_of "milk" (payloads stock_movements delivered_world)
      ≡ stock_of "milk" (payloads stock_movements stocked_world))
    × (value_of "milk" (payloads stock_movements delivered_world)
        ≡ value_of "milk" (payloads stock_movements stocked_world))
commit_movement-others_example =
    commit_movement-others env false delivery "milk" stocked_world refl delivery_run

commit_movement-IsStocked_example :
    IsStocked (payloads stock_movements (commit_movement env false delivery new_world).1)
commit_movement-IsStocked_example =
    commit_movement-IsStocked env delivery new_world no_movements-IsStocked

five_in_stock : stock_of "tea" (payloads stock_movements delivered_world) ≡ ok (pos 5)
unfolding runs
five_in_stock = refl

below_zero : ltb_ℤ (pos 5 +ℤ large_issue.quantity_delta) (pos 0) ≡ true
unfolding ◌+ℤ◌
below_zero = refl

commit_movement-negative_example :
    (e : Error) × (commit_movement env false large_issue delivered_world ≡ (err e, delivered_world))
commit_movement-negative_example =
    commit_movement-negative env large_issue delivered_world (pos 5) five_in_stock below_zero
