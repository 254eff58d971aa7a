-- ===== src/Inventory/Items.antt =====
-- The register of items, in src/bms/domain/inventory/service.py.
pub mod Registered
use bms_gui.Prelude.{String, Bool, not, Option, none, some, List, [], ◌∷◌, str_eq}
use bms_gui.Dict.{Dict, lookup, insert, values}
use bms_gui.Dict.Keys.{string_key, sorted_items}
use bms_gui.Fields.{◌&◌, truthy, require_fields}
use bms_gui.Json.{Value, Payload, str, bool, dict, get, as_text}
use bms_gui.Result as R
use bms_gui.Result.{Result, ok, err, inventory_error, fail_if, fold_each, check_each}
use bms_gui.Exec.{Exec, pure, reads, lift, ◌>>=◌, ◌>>◌}
use bms_gui.Store.{
  Env, World, items, uuid4_hex, append_wal_pending, append_wal_committed, append_record,
  append_audit_record, append_business_event, read_payloads,
}
use bms_gui.Inventory.Models.{Item}

-- `payload.get("business_unit", "retail")` as a text.
abbrev pub business_unit_of : Option Value → Option String
business_unit_of none = some "retail"
business_unit_of (some v) = as_text (some v)

-- `isinstance(active, bool)`
abbrev pub as_bool : Option Value → Option Bool
as_bool (some (bool b)) = some b
as_bool _ = none

-- The identity fields of a stored item.
unfoldable pub identity_of : Payload → Result (String × String × String)
identity_of payload = elim (as_text (get "item_id" payload)) [
  | none ↦ err (inventory_error "stored item payload has invalid identity fields")
  | some item_id ↦ elim (as_text (get "sku" payload)) [
    | none ↦ err (inventory_error "stored item payload has invalid identity fields")
    | some sku ↦ elim (as_text (get "name" payload)) [
      | none ↦ err (inventory_error "stored item payload has invalid identity fields")
      | some name ↦ ok (item_id, sku, name)
    ]
  ]
]

unfoldable pub business_unit : Payload → Result String
business_unit payload = elim (business_unit_of (get "business_unit" payload)) [
  | none ↦ err (inventory_error "stored item payload business_unit field is invalid")
  | some unit ↦
      R.◌>>◌
        (fail_if (not (truthy unit))
          (inventory_error "stored item payload business_unit field is invalid"))
        (ok unit)
]

unfoldable pub active_of : Payload → Result Bool
active_of payload = elim (as_bool (get "active" payload)) [
  | none ↦ err (inventory_error "stored item payload active field is not a boolean")
  | some active ↦ ok active
]

-- The body of the loop of `get_items`.
unfoldable pub add_item : Dict String Item → Payload → Result (Dict String Item)
unfolding insert identity_of business_unit active_of
add_item registered payload = R.◌>>=◌ (identity_of payload) λ names.
    R.◌>>=◌ (business_unit payload) λ unit. R.◌>>=◌ (active_of payload) λ active. ok (
      insert names.0
        (record {
          item_id = names.0;
          sku = names.1;
          name = names.2;
          active = active;
          business_unit = unit;
        })
        registered)

-- `get_items`, over the payloads of the items file.
unfoldable pub items_of : List Payload → Result (Dict String Item)
unfolding add_item fold_each sorted_items
items_of payloads =
    R.◌>>=◌ (fold_each add_item [] payloads) λ registered. ok (sorted_items registered)

-- `_validate_item`
unfoldable pub validate_item : Item → Result (Unit {0})
unfolding require_fields
validate_item item =
    require_fields inventory_error "missing required item field(s): "
      (("item_id", item.item_id) ∷ ("sku", item.sku) ∷ ("name", item.name) ∷ [])

-- `_reject_duplicate_item`, over the registered items.
unfoldable pub reject_duplicate_item : Item → Dict String Item → Result (Unit {0})
unfolding check_each
reject_duplicate_item item registered = check_each (values registered) λ existing.
    R.◌>>◌
      (fail_if (str_eq existing.item_id item.item_id)
        (inventory_error ("item " & item.item_id & " is already registered")))
      (fail_if (str_eq existing.sku item.sku)
        (inventory_error ("sku " & item.sku & " is already registered")))

unfoldable pub item_payload : Item → String → String → String → Payload
item_payload item created_at actor_id correlation_id = dict (
    ("item_id", str item.item_id)
    ∷ ("sku", str item.sku)
    ∷ ("name", str item.name)
    ∷ ("active", bool item.active)
    ∷ ("business_unit", str item.business_unit)
    ∷ ("created_at", str created_at)
    ∷ ("actor_id", str actor_id)
    ∷ ("correlation_id", str correlation_id)
    ∷ [])

module _ (env : Env) where
  unfoldable pub get_items : World → Result (Dict String Item)
  get_items w = R.◌>>=◌ (read_payloads env items w) items_of

  unfoldable pub get_item : String → World → Result (Option Item)
  get_item item_id w = R.◌>>=◌ (get_items w) λ registered. ok (lookup item_id registered)

  -- The writes of `register_item`.
  unfoldable pub write_item : Item → String → String → String → Exec World Item
  write_item item actor_id created_at correlation_id = do
    hex ← uuid4_hex env
    let transaction_id = "txn_inventory_register_item_" & item.item_id & "_" & hex
    append_wal_pending env transaction_id created_at actor_id correlation_id (
        dict (
          ("operation", str "inventory.register_item")
          ∷ ("item_id", str item.item_id)
          ∷ ("sku", str item.sku)
          ∷ []))
    append_record env items "inventory.item_registered" actor_id correlation_id
        ("item_registered_" & item.item_id) (item_payload item created_at actor_id correlation_id)
        (some ("itm_" & item.item_id)) (some created_at)
    append_audit_record env "inventory.item_registered" actor_id "inventory_item" item.item_id
        correlation_id (some created_at)
        (dict (
          ("sku", str item.sku)
          ∷ ("name", str item.name)
          ∷ ("active", bool item.active)
          ∷ ("business_unit", str item.business_unit)
          ∷ []))
        (some ("audit_item_registered_" & item.item_id))
    append_business_event env "inventory.item_registered.v1" actor_id
        (dict (
          ("item_id", str item.item_id)
          ∷ ("sku", str item.sku)
          ∷ ("name", str item.name)
          ∷ ("active", bool item.active)
          ∷ ("business_unit", str item.business_unit)
          ∷ []))
        (some correlation_id) (some created_at) (some ("event_item_registered_" & item.item_id))
    append_wal_committed env transaction_id created_at actor_id correlation_id
    pure item

  unfoldable pub register_item : Item → String → String → String → Exec World Item
  register_item item actor_id created_at correlation_id = do
    lift (validate_item item)
    registered ← reads get_items
    lift (reject_duplicate_item item registered)
    write_item item actor_id created_at correlation_id
