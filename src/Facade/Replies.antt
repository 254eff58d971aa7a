-- ===== src/Facade/Replies.antt =====
-- The output schemas of src/bms/app/commands.py: the dictionaries that the facade gives back. The
-- fields that say `ge=0` are checked.
use bms_gui.Prelude.{String, Option, none, some, List, [], ◌∷◌, map}
use bms_gui.Json.{Value, null, bool, int, str, arr, obj, Values, nil, cons, dict, str_list}
use bms_gui.Result.{Result, ok, ◌>>◌}
use bms_gui.Accounting.Models.{JournalResult}
use bms_gui.Inventory.Models.{Item, StockMovementResult}
use bms_gui.Billing.Models.{InvoiceResult, RefundResult}
use bms_gui.Auth.Policy.{role_name}
use bms_gui.Auth.Identity.{ActorSession, UserRoleProfile}
use bms_gui.Facade.Requests.{ClosePeriodCommandPayload}
use bms_gui.Facade.Schemas.{check_ge_zero}

abbrev pub optional_value : Option String → Value
optional_value none = null
optional_value (some s) = str s

unfoldable pub item_output : Item → Value
item_output item = obj (
    dict (
      ("item_id", str item.item_id)
      ∷ ("sku", str item.sku)
      ∷ ("name", str item.name)
      ∷ ("active", bool item.active)
      ∷ ("business_unit", str item.business_unit)
      ∷ []))

unfoldable pub stock_movement_output : StockMovementResult → Result Value
stock_movement_output result = do
  check_ge_zero result.unit_cost_minor
  ok (
      obj (
        dict (
          ("movement_id", str result.movement_id)
          ∷ ("item_id", str result.item_id)
          ∷ ("quantity_delta", int result.quantity_delta)
          ∷ ("quantity_on_hand", int result.quantity_on_hand)
          ∷ ("unit_cost_minor", int result.unit_cost_minor)
          ∷ ("value_delta_minor", int result.value_delta_minor)
          ∷ ("inventory_value_after_minor", int result.inventory_value_after_minor)
          ∷ [])))

unfoldable pub journal_output : JournalResult → Result Value
journal_output result = do
  check_ge_zero result.debit_total_minor
  check_ge_zero result.credit_total_minor
  ok (
      obj (
        dict (
          ("journal_id", str result.journal_id)
          ∷ ("debit_total_minor", int result.debit_total_minor)
          ∷ ("credit_total_minor", int result.credit_total_minor)
          ∷ ("currency", str result.currency)
          ∷ [])))

unfoldable pub invoice_output : InvoiceResult → Result Value
invoice_output result = do
  check_ge_zero result.subtotal_minor
  check_ge_zero result.tax_minor
  check_ge_zero result.total_minor
  ok (
      obj (
        dict (
          ("invoice_id", str result.invoice_id)
          ∷ ("journal_id", str result.journal_id)
          ∷ ("movement_ids", arr (str_list result.movement_ids))
          ∷ ("subtotal_minor", int result.subtotal_minor)
          ∷ ("tax_minor", int result.tax_minor)
          ∷ ("total_minor", int result.total_minor)
          ∷ ("currency", str result.currency)
          ∷ [])))

unfoldable pub refund_output : RefundResult → Result Value
refund_output result = do
  check_ge_zero result.subtotal_minor
  check_ge_zero result.tax_minor
  check_ge_zero result.total_minor
  ok (
      obj (
        dict (
          ("refund_id", str result.refund_id)
          ∷ ("original_invoice_id", str result.original_invoice_id)
          ∷ ("journal_id", str result.journal_id)
          ∷ ("movement_ids", arr (str_list result.movement_ids))
          ∷ ("subtotal_minor", int result.subtotal_minor)
          ∷ ("tax_minor", int result.tax_minor)
          ∷ ("total_minor", int result.total_minor)
          ∷ ("currency", str result.currency)
          ∷ [])))

unfoldable pub close_period_output : ClosePeriodCommandPayload → Value
close_period_output request = obj (
    dict (
      ("period_id", str request.period_id)
      ∷ ("status", str "closed")
      ∷ ("actor_id", str request.actor_id)
      ∷ ("closed_at", optional_value request.closed_at)
      ∷ ("correlation_id", optional_value request.correlation_id)
      ∷ []))

unfoldable pub user_role_output : UserRoleProfile → Value
user_role_output profile = obj (
    dict (
      ("actor_id", str profile.actor_id)
      ∷ ("display_name", str profile.display_name)
      ∷ ("active", bool profile.active)
      ∷ ("roles", arr (str_list (map role_name profile.roles)))
      ∷ []))

-- An entry of `actor_sessions`.
unfoldable pub session_output : ActorSession → Value
session_output session = obj (
    dict (
      ("actor_id", str session.actor_id)
      ∷ ("display_name", str session.display_name)
      ∷ ("roles", arr (str_list (map role_name session.roles)))
      ∷ []))

-- `[... for x in xs]`
abbrev pub list_output : {A : Type 0} → (A → Value) → List A → Values
list_output output [] = nil
list_output output (x ∷ xs) = cons (output x) (list_output output xs)
