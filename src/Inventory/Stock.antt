-- ===== src/Inventory/Stock.antt =====
-- The stock and the value that src/bms/domain/inventory/service.py adds up from the movements.
pub mod Laws
pub mod Average
pub mod Together
use Prim.Native.String.{count}
use bms_gui.Prelude.{
  String, Option, none, some, List, [], ◌∷◌, ℤ, pos, ◌+ℤ◌, leb_ℤ, ltb, str_eq, floor_div,
  if◌then◌else◌,
}
use bms_gui.Dict.{Dict, lookup_or, insert}
use bms_gui.Dict.Keys.{string_key, sorted_items}
use bms_gui.Fields.{◌&◌, truthy, int_field, take_text}
use bms_gui.Json.{Payload, get, is_text, as_text}
use bms_gui.Result.{Result, ok, err, inventory_error, ◌>>=◌, ◌>>◌, fail_if, fold_each}
use bms_gui.Store.{Env, World, stock_movements, read_payloads}

-- `_int_payload`
unfoldable pub int_payload : String → Payload → Result ℤ
unfolding int_field
int_payload = int_field inventory_error "stored payload field "

-- A loop that adds up one field of the movements of an item.
unfoldable pub add_field : String → String → ℤ → Payload → Result ℤ
add_field field item_id total payload =
    if is_text (get "item_id" payload) item_id
    then (do n ← int_payload field payload; ok (total +ℤ n))
    else ok total

-- `get_stock_on_hand` and `get_inventory_value_minor`, over the payloads of the movements.
unfoldable pub stock_of : String → List Payload → Result ℤ
stock_of item_id movements = fold_each (add_field "quantity_delta" item_id) (pos 0) movements

unfoldable pub value_of : String → List Payload → Result ℤ
value_of item_id movements = fold_each (add_field "value_delta_minor" item_id) (pos 0) movements

-- The body of the loop of `get_all_stock_on_hand`.
unfoldable pub add_stock : Dict String ℤ → Payload → Result (Dict String ℤ)
unfolding lookup_or insert int_payload
add_stock quantities payload = elim (as_text (get "item_id" payload)) [
  | none ↦ err (inventory_error "stored stock movement item_id is not a string")
  | some item_id ↦ do
    n ← int_payload "quantity_delta" payload
    ok (insert item_id (lookup_or item_id (pos 0) quantities +ℤ n) quantities)
]

unfoldable pub all_stock_of : List Payload → Result (Dict String ℤ)
unfolding add_stock fold_each sorted_items
all_stock_of movements = do
  quantities ← fold_each add_stock [] movements
  ok (sorted_items quantities)

unfoldable pub add_value : ℤ → Payload → Result ℤ
unfolding int_payload
add_value total payload = do n ← int_payload "value_delta_minor" payload; ok (total +ℤ n)

-- `get_total_inventory_value_minor`
unfoldable pub total_value_of : List Payload → Result ℤ
unfolding add_value fold_each
total_value_of movements = fold_each add_value (pos 0) movements

-- `_period_id_from_timestamp`: the year and month of an ISO timestamp.
unfoldable pub period_id_from_timestamp : String → String
unfolding take_text
period_id_from_timestamp timestamp = "FY" & take_text 7 timestamp

-- `_stock_movement_period_id`
unfoldable pub stock_movement_period_id : Payload → Result String
unfolding period_id_from_timestamp
stock_movement_period_id payload =
    let derived : Result String = elim (as_text (get "timestamp" payload)) [
      | none ↦ err (inventory_error "stored stock movement period cannot be derived")
      | some timestamp ↦ (do
        fail_if (ltb (count timestamp) 7)
            (inventory_error "stored stock movement period cannot be derived")
        ok (period_id_from_timestamp timestamp))
    ] in
    elim (as_text (get "period_id" payload)) [
      | none ↦ derived
      | some period_id ↦ if truthy period_id then ok period_id else derived
    ]

-- The body of the loop of `get_inventory_value_delta_minor`.
unfoldable pub add_period_value : String → ℤ → Payload → Result ℤ
unfolding stock_movement_period_id add_value
add_period_value period_id total payload = do
  found ← stock_movement_period_id payload
  if str_eq found period_id then add_value total payload else ok total

unfoldable pub period_value_of : String → List Payload → Result ℤ
unfolding add_period_value fold_each
period_value_of period_id movements = fold_each (add_period_value period_id) (pos 0) movements

-- The weighted average over a stock and its value.
unfoldable pub average_of : ℤ → ℤ → ℤ
average_of quantity value = if leb_ℤ quantity (pos 0) then pos 0 else floor_div value quantity

module _ (env : Env) where
  unfoldable pub get_stock_on_hand : String → World → Result ℤ
  get_stock_on_hand item_id w = read_payloads env stock_movements w >>= stock_of item_id

  unfoldable pub get_all_stock_on_hand : World → Result (Dict String ℤ)
  get_all_stock_on_hand w = read_payloads env stock_movements w >>= all_stock_of

  unfoldable pub get_inventory_value_minor : String → World → Result ℤ
  get_inventory_value_minor item_id w = read_payloads env stock_movements w >>= value_of item_id

  unfoldable pub get_total_inventory_value_minor : World → Result ℤ
  get_total_inventory_value_minor w = read_payloads env stock_movements w >>= total_value_of

  unfoldable pub get_inventory_value_delta_minor : String → World → Result ℤ
  get_inventory_value_delta_minor period_id w =
      read_payloads env stock_movements w >>= period_value_of period_id

  -- The value is read only where there is stock.
  unfoldable pub get_weighted_average_unit_cost_minor : String → World → Result ℤ
  get_weighted_average_unit_cost_minor item_id w = do
    quantity ← get_stock_on_hand item_id w
    if leb_ℤ quantity (pos 0)
        then ok (pos 0)
        else do value ← get_inventory_value_minor item_id w; ok (average_of quantity value)
