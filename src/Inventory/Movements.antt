-- ===== src/Inventory/Movements.antt =====
-- Stock movements, in src/bms/domain/inventory/service.py.
pub mod Written
pub mod NonNegative
pub mod Refused
use bms_gui.Prelude.{
  String, Bool, true, false, not, ◌&&◌, Option, none, some, List, [], ◌∷◌, ℕ, ℤ, pos, ◌+ℤ◌, ◌*ℤ◌,
  eqb_ℤ, leb_ℤ, ltb_ℤ, nonzero, if◌then◌else◌,
}
use bms_gui.Fields.{◌&◌, truthy, require_fields}
use bms_gui.Json.{Value, Payload, str, int, dict, get, is_text}
use bms_gui.Result as R
use bms_gui.Result.{Result, ok, err, inventory_error, fail_if, check_each}
use bms_gui.Exec.{Exec, pure, reads, lift, ◌>>=◌, ◌>>◌}
use bms_gui.Store.{
  Env, World, stock_movements, uuid4_hex, append_wal_pending, append_wal_committed, append_record,
  append_audit_record, append_business_event, read_payloads,
}
use bms_gui.Inventory.Models.{
  StockMovementType, adjustment, type_value, is_stock_in, is_stock_out, Item, StockMovementCommand,
  StockMovementResult,
}
use bms_gui.Inventory.Items.{get_item}
use bms_gui.Inventory.Stock.{
  average_of, get_stock_on_hand, get_inventory_value_minor, period_id_from_timestamp,
}

-- `_validate_command`
unfoldable pub validate_command : StockMovementCommand → Result (Unit {0})
validate_command command =
    R.◌>>◌
      (require_fields inventory_error "missing required stock movement field(s): " (
        ("movement_id", command.movement_id)
        ∷ ("item_id", command.item_id)
        ∷ ("timestamp", command.timestamp)
        ∷ ("actor_id", command.actor_id)
        ∷ ("reason", command.reason)
        ∷ ("source_module", command.source_module)
        ∷ ("source_document_id", command.source_document_id)
        ∷ ("correlation_id", command.correlation_id)
        ∷ []))
      (R.◌>>◌
        (fail_if (eqb_ℤ command.quantity_delta (pos 0))
          (inventory_error "stock movement quantity_delta cannot be zero"))
        (R.◌>>◌
          (fail_if (ltb_ℤ command.unit_cost_minor (pos 0))
            (inventory_error "stock movement unit_cost_minor cannot be negative"))
          (R.◌>>◌
            (fail_if (is_stock_in command.movement_type && ltb_ℤ command.quantity_delta (pos 0))
              (inventory_error "stock_in movement must increase stock"))
            (fail_if (is_stock_out command.movement_type && ltb_ℤ (pos 0) command.quantity_delta)
              (inventory_error "stock_out movement must decrease stock")))))

-- `_reject_duplicate_movement`, over the payloads of the movements.
unfoldable pub reject_duplicate_movement : String → List Payload → Result (Unit {0})
unfolding check_each
reject_duplicate_movement movement_id movements = check_each movements λ payload.
    fail_if (is_text (get "movement_id" payload) movement_id)
      (inventory_error ("stock movement " & movement_id & " is already committed"))

-- `_movement_unit_cost`
unfoldable pub movement_unit_cost : StockMovementCommand → ℤ → ℤ → ℤ
movement_unit_cost command current_quantity current_value =
    if ltb_ℤ (pos 0) command.quantity_delta
    then command.unit_cost_minor
    else if nonzero command.unit_cost_minor
    then command.unit_cost_minor
    else average_of current_quantity current_value

-- `_movement_period_id`
unfoldable pub movement_period_id : StockMovementCommand → String
unfolding period_id_from_timestamp
movement_period_id command =
    if truthy command.period_id
    then command.period_id
    else period_id_from_timestamp command.timestamp

-- The local variables of `commit_movement` once the checks have passed.
pub record Movement : Type 0 where
  pub next_quantity : ℤ
  pub unit_cost : ℤ
  pub value_delta : ℤ
  pub value_after : ℤ

unfoldable pub movement_of : StockMovementCommand → ℤ → ℤ → Movement
movement_of command quantity value =
    let unit_cost = movement_unit_cost command quantity value in
    let value_delta = command.quantity_delta *ℤ unit_cost in
    record {
      next_quantity = quantity +ℤ command.quantity_delta;
      unit_cost = unit_cost;
      value_delta = value_delta;
      value_after = value +ℤ value_delta;
    }

-- The payload of a movement.
unfoldable pub movement_payload : StockMovementCommand → Movement → Payload
movement_payload command m = dict (
    ("movement_id", str command.movement_id)
    ∷ ("item_id", str command.item_id)
    ∷ ("movement_type", str (type_value command.movement_type))
    ∷ ("quantity_delta", int command.quantity_delta)
    ∷ ("quantity_on_hand_after", int m.next_quantity)
    ∷ ("period_id", str (movement_period_id command))
    ∷ ("unit_cost_minor", int m.unit_cost)
    ∷ ("value_delta_minor", int m.value_delta)
    ∷ ("inventory_value_after_minor", int m.value_after)
    ∷ ("timestamp", str command.timestamp)
    ∷ ("actor_id", str command.actor_id)
    ∷ ("reason", str command.reason)
    ∷ ("source_module", str command.source_module)
    ∷ ("source_document_id", str command.source_document_id)
    ∷ ("correlation_id", str command.correlation_id)
    ∷ [])

module _ (env : Env) (allow_negative_stock : Bool) where
  -- `_validate_movement_item`
  unfoldable pub validate_movement_item : String → World → Result (Unit {0})
  validate_movement_item item_id w = R.◌>>=◌ (get_item env item_id w) λ found. elim found [
    | none ↦ err (inventory_error ("unknown item " & item_id))
    | some item ↦ fail_if (not item.active) (inventory_error ("inactive item " & item_id))
  ]

  -- The checks and the reads of `commit_movement`, up to the first write.
  unfoldable pub plan_movement : StockMovementCommand → World → Result Movement
  plan_movement command w = R.◌>>◌ (validate_command command) (
      R.◌>>◌
        (R.◌>>=◌ (read_payloads env stock_movements w)
          (reject_duplicate_movement command.movement_id))
        (R.◌>>◌ (validate_movement_item command.item_id w) (
          R.◌>>=◌ (get_stock_on_hand env command.item_id w) λ quantity.
            R.◌>>=◌ (get_inventory_value_minor env command.item_id w) λ value.
              R.◌>>◌
                (fail_if
                  (ltb_ℤ (quantity +ℤ command.quantity_delta) (pos 0) && not allow_negative_stock)
                  (inventory_error
                    ("movement would make stock negative for item " & command.item_id)))
                (ok (movement_of command quantity value)))))

  -- The writes of `commit_movement`.
  unfoldable pub write_movement : StockMovementCommand → Movement → Exec World StockMovementResult
  write_movement command m = do
    hex ← uuid4_hex env
    let transaction_id = "txn_inventory_" & command.movement_id & "_" & hex
    append_wal_pending env transaction_id command.timestamp command.actor_id command.correlation_id
        (dict (
          ("operation", str "inventory.commit_movement")
          ∷ ("movement_id", str command.movement_id)
          ∷ ("item_id", str command.item_id)
          ∷ ("quantity_delta", int command.quantity_delta)
          ∷ ("period_id", str (movement_period_id command))
          ∷ ("unit_cost_minor", int m.unit_cost)
          ∷ ("value_delta_minor", int m.value_delta)
          ∷ ("source_document_id", str command.source_document_id)
          ∷ []))
    append_record env stock_movements "inventory.stock_movement" command.actor_id
        command.correlation_id ("stock_movement_" & command.movement_id)
        (movement_payload command m) (some ("stm_" & command.movement_id)) (some command.timestamp)
    append_audit_record env "inventory.stock_moved" command.actor_id "inventory_item"
        command.item_id command.correlation_id (some command.timestamp)
        (dict (
          ("movement_id", str command.movement_id)
          ∷ ("movement_type", str (type_value command.movement_type))
          ∷ ("quantity_delta", int command.quantity_delta)
          ∷ ("quantity_on_hand_after", int m.next_quantity)
          ∷ ("period_id", str (movement_period_id command))
          ∷ ("unit_cost_minor", int m.unit_cost)
          ∷ ("value_delta_minor", int m.value_delta)
          ∷ ("inventory_value_after_minor", int m.value_after)
          ∷ ("reason", str command.reason)
          ∷ ("source_module", str command.source_module)
          ∷ ("source_document_id", str command.source_document_id)
          ∷ []))
        (some ("audit_stock_moved_" & command.movement_id))
    append_business_event env "inventory.stock_moved.v1" command.actor_id
        (dict (
          ("movement_id", str command.movement_id)
          ∷ ("item_id", str command.item_id)
          ∷ ("movement_type", str (type_value command.movement_type))
          ∷ ("quantity_delta", int command.quantity_delta)
          ∷ ("quantity_on_hand_after", int m.next_quantity)
          ∷ ("period_id", str (movement_period_id command))
          ∷ ("unit_cost_minor", int m.unit_cost)
          ∷ ("value_delta_minor", int m.value_delta)
          ∷ ("inventory_value_after_minor", int m.value_after)
          ∷ ("source_document_id", str command.source_document_id)
          ∷ []))
        (some command.correlation_id) (some command.timestamp)
        (some ("event_stock_moved_" & command.movement_id))
    append_wal_committed env transaction_id command.timestamp command.actor_id
        command.correlation_id
    pure (record {
      movement_id = command.movement_id;
      item_id = command.item_id;
      quantity_delta = command.quantity_delta;
      quantity_on_hand = m.next_quantity;
      unit_cost_minor = m.unit_cost;
      value_delta_minor = m.value_delta;
      inventory_value_after_minor = m.value_after;
    })

  unfoldable pub commit_movement : StockMovementCommand → Exec World StockMovementResult
  commit_movement command = do m ← reads (plan_movement command); write_movement command m

  unfoldable pub adjust_stock :
      String
      → String
      → ℤ
      → String
      → String
      → String
      → String
      → String
      → ℤ
      → Exec World StockMovementResult
  adjust_stock movement_id item_id quantity_delta timestamp actor_id reason source_document_id
        correlation_id unit_cost_minor =
      commit_movement (record {
        movement_id = movement_id;
        item_id = item_id;
        movement_type = adjustment;
        quantity_delta = quantity_delta;
        timestamp = timestamp;
        actor_id = actor_id;
        reason = reason;
        source_module = "inventory";
        source_document_id = source_document_id;
        correlation_id = correlation_id;
        unit_cost_minor = unit_cost_minor;
        period_id = "";
      })
