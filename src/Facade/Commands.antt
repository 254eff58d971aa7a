-- ===== src/Facade/Commands.antt =====
-- The command schemas of src/bms/domain/accounting/schemas.py, src/bms/domain/inventory/schemas.py
-- and src/bms/domain/billing/schemas.py: how the payloads of the facade become commands.
use bms_gui.Prelude.{String, Option, none, some, [], ◌∷◌, str_eq, if◌then◌else◌}
use bms_gui.Fields.{◌&◌}
use bms_gui.Json.{Payload}
use bms_gui.Result.{Result, ok, err, validation_error, ◌>>=◌, ◌>>◌}
use bms_gui.Accounting.Models.{JournalLine, PostJournalCommand}
use bms_gui.Inventory.Models.{
  StockMovementType, stock_in, stock_out, adjustment, StockMovementCommand,
}
use bms_gui.Billing.Models.{
  InvoiceLineCommand, CreateInvoiceCommand, RefundLineCommand, CreateRefundCommand,
}
use bms_gui.Facade.Schemas.{
  FacadeEnv, required_text, forbid_extra, text_or, text_or_empty, required_int, int_or_zero,
  check_ge_zero, bool_or_true, required_lines,
}

-- `JournalLineSchema` with `to_line`
unfoldable pub journal_line_of : Payload → Result JournalLine
journal_line_of payload = do
  forbid_extra ("account_code" ∷ "debit_minor" ∷ "credit_minor" ∷ "currency" ∷ "memo" ∷ []) payload
  account_code ← required_text "account_code" payload
  debit_minor ← int_or_zero "debit_minor" payload
  credit_minor ← int_or_zero "credit_minor" payload
  currency ← text_or "INR" "currency" payload
  memo ← text_or_empty "memo" payload
  ok (record {
    account_code = account_code;
    debit_minor = debit_minor;
    credit_minor = credit_minor;
    currency = currency;
    memo = memo;
  })

unfoldable pub validate_post_journal_command_payload : Payload → Result PostJournalCommand
validate_post_journal_command_payload payload = do
  forbid_extra
      ("journal_id" ∷ "period_id" ∷ "timestamp" ∷ "actor_id" ∷ "source_module"
        ∷ "source_document_id" ∷ "correlation_id" ∷ "description" ∷ "lines" ∷ [])
      payload
  journal_id ← required_text "journal_id" payload
  period_id ← required_text "period_id" payload
  timestamp ← required_text "timestamp" payload
  actor_id ← required_text "actor_id" payload
  source_module ← required_text "source_module" payload
  source_document_id ← required_text "source_document_id" payload
  correlation_id ← required_text "correlation_id" payload
  description ← required_text "description" payload
  lines ← required_lines journal_line_of payload
  ok (record {
    journal_id = journal_id;
    period_id = period_id;
    timestamp = timestamp;
    actor_id = actor_id;
    source_module = source_module;
    source_document_id = source_document_id;
    correlation_id = correlation_id;
    description = description;
    lines = lines;
  })

-- `StockMovementType`, by its value.
abbrev pub movement_type_of : String → Option StockMovementType
movement_type_of name =
    if str_eq name "stock_in"
    then some stock_in
    else if str_eq name "stock_out"
    then some stock_out
    else if str_eq name "adjustment"
    then some adjustment
    else none

unfoldable pub movement_type_field : Payload → Result StockMovementType
movement_type_field payload = required_text "movement_type" payload >>= λ name.
    elim (movement_type_of name) [
      | none ↦ err (validation_error (name & " is no type of a movement"))
      | some type ↦ ok type
    ]

unfoldable pub validate_stock_movement_command_payload : Payload → Result StockMovementCommand
validate_stock_movement_command_payload payload = do
  forbid_extra
      ("movement_id" ∷ "item_id" ∷ "movement_type" ∷ "quantity_delta" ∷ "timestamp" ∷ "actor_id"
        ∷ "reason" ∷ "source_module" ∷ "source_document_id" ∷ "correlation_id" ∷ "unit_cost_minor"
        ∷ "period_id" ∷ [])
      payload
  movement_id ← required_text "movement_id" payload
  item_id ← required_text "item_id" payload
  movement_type ← movement_type_field payload
  quantity_delta ← required_int "quantity_delta" payload
  timestamp ← required_text "timestamp" payload
  actor_id ← required_text "actor_id" payload
  reason ← required_text "reason" payload
  source_module ← required_text "source_module" payload
  source_document_id ← required_text "source_document_id" payload
  correlation_id ← required_text "correlation_id" payload
  unit_cost_minor ← int_or_zero "unit_cost_minor" payload
  check_ge_zero unit_cost_minor
  period_id ← text_or_empty "period_id" payload
  ok (record {
    movement_id = movement_id;
    item_id = item_id;
    movement_type = movement_type;
    quantity_delta = quantity_delta;
    timestamp = timestamp;
    actor_id = actor_id;
    reason = reason;
    source_module = source_module;
    source_document_id = source_document_id;
    correlation_id = correlation_id;
    unit_cost_minor = unit_cost_minor;
    period_id = period_id;
  })

-- `InvoiceLineCommandSchema` with `to_command`
unfoldable pub invoice_line_of : Payload → Result InvoiceLineCommand
invoice_line_of payload = do
  forbid_extra ("item_id" ∷ "quantity" ∷ "unit_price_minor" ∷ "description" ∷ []) payload
  item_id ← required_text "item_id" payload
  quantity ← required_int "quantity" payload
  unit_price_minor ← required_int "unit_price_minor" payload
  description ← text_or_empty "description" payload
  ok (record {
    item_id = item_id;
    quantity = quantity;
    unit_price_minor = unit_price_minor;
    description = description;
  })

unfoldable pub validate_create_invoice_command_payload : Payload → Result CreateInvoiceCommand
validate_create_invoice_command_payload payload = do
  forbid_extra
      ("invoice_id" ∷ "customer_id" ∷ "period_id" ∷ "timestamp" ∷ "actor_id" ∷ "correlation_id"
        ∷ "payment_method" ∷ "currency" ∷ "lines" ∷ [])
      payload
  invoice_id ← required_text "invoice_id" payload
  customer_id ← required_text "customer_id" payload
  period_id ← required_text "period_id" payload
  timestamp ← required_text "timestamp" payload
  actor_id ← required_text "actor_id" payload
  correlation_id ← required_text "correlation_id" payload
  payment_method ← required_text "payment_method" payload
  currency ← required_text "currency" payload
  lines ← required_lines invoice_line_of payload
  ok (record {
    invoice_id = invoice_id;
    customer_id = customer_id;
    period_id = period_id;
    timestamp = timestamp;
    actor_id = actor_id;
    correlation_id = correlation_id;
    payment_method = payment_method;
    currency = currency;
    lines = lines;
  })

module _ (facade : FacadeEnv) where
  -- `RefundLineCommandSchema` with `to_command`
  unfoldable pub refund_line_of : Payload → Result RefundLineCommand
  refund_line_of payload = do
    forbid_extra ("item_id" ∷ "quantity" ∷ "unit_price_minor" ∷ "description" ∷ "restock" ∷ [])
        payload
    item_id ← required_text "item_id" payload
    quantity ← required_int "quantity" payload
    unit_price_minor ← required_int "unit_price_minor" payload
    description ← text_or_empty "description" payload
    restock ← bool_or_true facade "restock" payload
    ok (record {
      item_id = item_id;
      quantity = quantity;
      unit_price_minor = unit_price_minor;
      description = description;
      restock = restock;
    })

  unfoldable pub validate_create_refund_command_payload : Payload → Result CreateRefundCommand
  validate_create_refund_command_payload payload = do
    forbid_extra
        ("refund_id" ∷ "original_invoice_id" ∷ "period_id" ∷ "timestamp" ∷ "actor_id"
          ∷ "correlation_id" ∷ "currency" ∷ "reason" ∷ "lines" ∷ [])
        payload
    refund_id ← required_text "refund_id" payload
    original_invoice_id ← required_text "original_invoice_id" payload
    period_id ← required_text "period_id" payload
    timestamp ← required_text "timestamp" payload
    actor_id ← required_text "actor_id" payload
    correlation_id ← required_text "correlation_id" payload
    currency ← required_text "currency" payload
    reason ← required_text "reason" payload
    lines ← required_lines refund_line_of payload
    ok (record {
      refund_id = refund_id;
      original_invoice_id = original_invoice_id;
      period_id = period_id;
      timestamp = timestamp;
      actor_id = actor_id;
      correlation_id = correlation_id;
      currency = currency;
      reason = reason;
      lines = lines;
    })
