-- ===== src/Events.antt =====
-- src/bms/domain/events/schemas.py: the declared schemas of the business events. Their reading by
-- pydantic is the parameter `model_validate` of the store's environment.
use bms_gui.Prelude.{String, Option, none, some, List, [], ◌∷◌, ℤ, pos}
use bms_gui.Json.{Value, int, str, null}
use bms_gui.Dict.{Dict, lookup}
use bms_gui.Dict.Keys.{string_key}

-- The annotation of a field.
pub data FieldType : Type 0 where
  literal : List String → FieldType
  text boolean integer : FieldType
  at_least : ℤ → FieldType
  optional_text : FieldType

-- A field: its name, its annotation, and its default where it has one.
pub record FieldSchema : Type 0 where
  pub name : String
  pub annotation : FieldType
  pub default : Option Value

-- A model with `extra="forbid"`: no other key is taken.
abbrev pub Schema : Type 0
Schema = List FieldSchema

abbrev required : String → FieldType → FieldSchema
required name annotation = record { name = name; annotation = annotation; default = none }

abbrev defaulted : String → FieldType → Value → FieldSchema
defaulted name annotation value = record {
  name = name;
  annotation = annotation;
  default = some value;
}

-- `_BusinessEventSchema`, with the literal type of the event.
abbrev event : String → List FieldSchema → Schema
event event_type fields =
    required "event_type" (literal (event_type ∷ [])) ∷ required "occurred_at" text ∷ fields

abbrev audit_record_created_v1 : Schema
audit_record_created_v1 =
    event "audit.record_created.v1"
      (required "action" text ∷ required "target_type" text ∷ required "target_id" text ∷ [])

abbrev inventory_item_registered_v1 : Schema
inventory_item_registered_v1 = event "inventory.item_registered.v1" (
    required "item_id" text
    ∷ required "sku" text
    ∷ required "name" text
    ∷ required "active" boolean
    ∷ defaulted "business_unit" text (str "retail")
    ∷ [])

abbrev inventory_stock_moved_v1 : Schema
inventory_stock_moved_v1 = event "inventory.stock_moved.v1" (
    required "movement_id" text
    ∷ required "item_id" text
    ∷ required "movement_type" (literal ("stock_in" ∷ "stock_out" ∷ "adjustment" ∷ []))
    ∷ required "quantity_delta" integer
    ∷ required "quantity_on_hand_after" integer
    ∷ defaulted "unit_cost_minor" (at_least (pos 0)) (int (pos 0))
    ∷ defaulted "value_delta_minor" integer (int (pos 0))
    ∷ defaulted "inventory_value_after_minor" integer (int (pos 0))
    ∷ required "source_document_id" text
    ∷ [])

abbrev accounting_journal_posted_v1 : Schema
accounting_journal_posted_v1 = event "accounting.journal_posted.v1" (
    required "journal_id" text
    ∷ required "period_id" text
    ∷ required "source_document_id" text
    ∷ required "debit_total_minor" (at_least (pos 0))
    ∷ required "credit_total_minor" (at_least (pos 0))
    ∷ required "currency" text
    ∷ [])

abbrev accounting_period_closed_v1 : Schema
accounting_period_closed_v1 = event "accounting.period_closed.v1" (
    required "period_id" text
    ∷ required "debit_total_minor" (at_least (pos 0))
    ∷ required "credit_total_minor" (at_least (pos 0))
    ∷ [])

abbrev billing_sale_completed_v1 : Schema
billing_sale_completed_v1 = event "billing.sale_completed.v1" (
    required "invoice_id" text
    ∷ required "customer_id" text
    ∷ required "currency" text
    ∷ required "subtotal_minor" (at_least (pos 0))
    ∷ required "tax_minor" (at_least (pos 0))
    ∷ required "total_minor" (at_least (pos 0))
    ∷ required "payment_method" text
    ∷ required "line_count" (at_least (pos 1))
    ∷ [])

abbrev billing_refund_completed_v1 : Schema
billing_refund_completed_v1 = event "billing.refund_completed.v1" (
    required "refund_id" text
    ∷ required "original_invoice_id" text
    ∷ required "currency" text
    ∷ required "subtotal_minor" (at_least (pos 0))
    ∷ required "tax_minor" (at_least (pos 0))
    ∷ required "total_minor" (at_least (pos 0))
    ∷ defaulted "cogs_restored_minor" (at_least (pos 0)) (int (pos 0))
    ∷ required "line_count" (at_least (pos 1))
    ∷ [])

abbrev recovery_reconciliation_recorded_v1 : Schema
recovery_reconciliation_recorded_v1 = event "recovery.reconciliation_recorded.v1" (
    required "reconciliation_id" text
    ∷ required "transaction_id" text
    ∷ required "operation" text
    ∷ required "decision" text
    ∷ required "resolved" boolean
    ∷ defaulted "correction_journal_id" optional_text null
    ∷ [])

abbrev event_schema_table : Dict String Schema
event_schema_table =
    ("audit.record_created.v1", audit_record_created_v1)
    ∷ ("inventory.item_registered.v1", inventory_item_registered_v1)
    ∷ ("inventory.stock_moved.v1", inventory_stock_moved_v1)
    ∷ ("accounting.journal_posted.v1", accounting_journal_posted_v1)
    ∷ ("accounting.period_closed.v1", accounting_period_closed_v1)
    ∷ ("billing.sale_completed.v1", billing_sale_completed_v1)
    ∷ ("billing.refund_completed.v1", billing_refund_completed_v1)
    ∷ ("recovery.reconciliation_recorded.v1", recovery_reconciliation_recorded_v1)
    ∷ []

-- `_EVENT_SCHEMAS.get(event_type)`
unfoldable pub event_schemas : String → Option Schema
unfolding lookup
event_schemas event_type = lookup event_type event_schema_table
