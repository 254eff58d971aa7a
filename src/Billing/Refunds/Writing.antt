-- ===== src/Billing/Refunds/Writing.antt =====
-- The body of `create_refund`: the checks, and the writes under one transaction of the log.
use bms_gui.Prelude.{
  ℕ, suc, String, not, Option, none, some, List, [], ◌∷◌, length, ℤ, pos, if◌then◌else◌,
}
use bms_gui.Fields.{◌&◌, decimal, checked_div}
use bms_gui.Json.{Value, Payload, str, int, bool, arr, dict, str_list, get, is_text}
use bms_gui.Result as R
use bms_gui.Result.{Result, ok, err, billing_error, fail_if}
use bms_gui.Exec.{Exec, pure, reads, lift, for_each, ◌>>=◌, ◌>>◌}
use bms_gui.Store.{
  Env, World, invoices, refunds, refund_lines, uuid4_hex, append_wal_pending, append_wal_committed,
  append_record, append_audit_record, append_business_event, read_payloads,
}
use bms_gui.Accounting.Port.{AccountingPort}
use bms_gui.Inventory.Models.{stock_in}
use bms_gui.Inventory.Port.{InventoryPort}
use bms_gui.Billing.Models.{
  RefundLineCommand, CreateRefundCommand, RefundResult, SalesPostingAccounts,
}
use bms_gui.Billing.Payloads.{reject_duplicate_refund}
use bms_gui.Billing.Refundable.{validate_refund_against_original_invoice, refund_cogs_by_line}
use bms_gui.Billing.Invoices.Writing.{unit_or_retail}
use bms_gui.Billing.Refunds.Return.{
  Return, validate_refund_command, refund_line_amount, refund_movement_id, return_of,
  return_journal,
}

-- A line with its number and the cost of its goods.
abbrev pub ReturnedLine : Type 0
ReturnedLine = ℕ × RefundLineCommand × ℤ

abbrev pub returned : ℕ → List RefundLineCommand → List ℤ → List ReturnedLine
returned index (line ∷ lines) (cogs ∷ rest) = (index, line, cogs) ∷ returned (suc index) lines rest
returned _ _ _ = []

-- `_get_invoice`, over the payloads of the invoices.
unfoldable pub find_invoice : String → List Payload → Option Payload
find_invoice invoice_id [] = none
find_invoice invoice_id (payload ∷ rest) =
    if is_text (get "invoice_id" payload) invoice_id
    then some payload
    else find_invoice invoice_id rest

abbrev amounts : Return → List (String × Value) → List (String × Value)
amounts return rest =
    ("subtotal_minor", int return.subtotal)
    ∷ ("tax_minor", int return.tax)
    ∷ ("total_minor", int return.total)
    ∷ ("cogs_restored_minor", int return.cogs_restored)
    ∷ rest

unfoldable pub refund_payload : CreateRefundCommand → Return → Payload
refund_payload command return = dict (
    ("refund_id", str command.refund_id)
    ∷ ("original_invoice_id", str command.original_invoice_id)
    ∷ ("period_id", str command.period_id)
    ∷ ("timestamp", str command.timestamp)
    ∷ ("actor_id", str command.actor_id)
    ∷ ("currency", str command.currency)
    ∷ ("reason", str command.reason)
    ∷ amounts return (
        ("journal_id", str return.journal_id)
        ∷ ("movement_ids", arr (str_list return.movement_ids))
        ∷ ("correlation_id", str command.correlation_id)
        ∷ ("status", str "completed")
        ∷ []))

unfoldable pub refund_line_payload : CreateRefundCommand → ReturnedLine → String → ℤ → Payload
refund_line_payload command (index, line, cogs) business_unit cogs_unit_cost = dict (
    ("refund_id", str command.refund_id)
    ∷ ("line_no", int (pos index))
    ∷ ("item_id", str line.item_id)
    ∷ ("description", str line.description)
    ∷ ("business_unit", str business_unit)
    ∷ ("quantity", int line.quantity)
    ∷ ("unit_price_minor", int line.unit_price_minor)
    ∷ ("line_subtotal_minor", int (refund_line_amount line))
    ∷ ("cogs_unit_cost_minor", int cogs_unit_cost)
    ∷ ("cogs_minor", int cogs)
    ∷ ("restock", bool line.restock)
    ∷ ("currency", str command.currency)
    ∷ [])

module _ (env : Env) (inventory : InventoryPort) (accounting : AccountingPort) (tax_rate : ℤ)
    (posting_accounts : SalesPostingAccounts) where
  -- The original invoice is there.
  unfoldable pub require_invoice : CreateRefundCommand → World → Result Payload
  require_invoice command w = R.◌>>=◌ (read_payloads env invoices w) λ stored.
      elim (find_invoice command.original_invoice_id stored) [
        | none ↦
            err
              (billing_error ("original invoice " & command.original_invoice_id & " was not found"))
        | some payload ↦ ok payload
      ]

  -- The checks and the reads, up to the first write.
  unfoldable pub plan_refund : CreateRefundCommand → World → Result Return
  plan_refund command w = R.◌>>◌ (validate_refund_command tax_rate command) (
      R.◌>>◌ (R.◌>>=◌ (read_payloads env refunds w) (reject_duplicate_refund command.refund_id)) (
        R.◌>>=◌ (require_invoice command w) λ original.
          R.◌>>◌
            (fail_if (accounting.is_period_closed command.period_id w)
              (billing_error ("period " & command.period_id & " is closed")))
            (R.◌>>◌
              (fail_if (not (is_text (get "currency" original) command.currency))
                (billing_error "refund currency must match original invoice currency"))
              (R.◌>>◌ (validate_refund_against_original_invoice env command w) (
                R.◌>>=◌ (refund_cogs_by_line env command w)
                  λ cogs. ok (return_of tax_rate command cogs))))))

  -- A stock movement for a line that goes back, at the cost of the original sale.
  unfoldable pub restock_line : CreateRefundCommand → ReturnedLine → Exec World (Unit {0})
  restock_line command (index, line, cogs) =
      if line.restock
      then (do
        unit_cost ← lift (checked_div cogs line.quantity)
        inventory.commit_movement (record {
          movement_id = refund_movement_id command index;
          item_id = line.item_id;
          movement_type = stock_in;
          quantity_delta = line.quantity;
          timestamp = command.timestamp;
          actor_id = command.actor_id;
          reason = "refund return";
          source_module = "billing";
          source_document_id = command.refund_id;
          correlation_id = command.correlation_id;
          unit_cost_minor = unit_cost;
          period_id = "";
        })
        pure tt)
      else pure tt

  unfoldable pub append_refund : CreateRefundCommand → Return → Exec World ℕ
  append_refund command return =
      append_record env refunds "billing.refund" command.actor_id command.correlation_id
        ("refund_" & command.refund_id) (refund_payload command return)
        (some ("ref_" & command.refund_id)) (some command.timestamp)

  unfoldable pub append_refund_line : CreateRefundCommand → ReturnedLine → Exec World (Unit {0})
  append_refund_line command (index, line, cogs) = do
    item ← reads (inventory.get_item line.item_id)
    cogs_unit_cost ← lift (checked_div cogs line.quantity)
    append_record env refund_lines "billing.refund_line" command.actor_id command.correlation_id
        ("refund_line_" & command.refund_id & "_" & decimal index)
        (refund_line_payload command (index, line, cogs) (unit_or_retail item) cogs_unit_cost)
        (some ("rfl_" & command.refund_id & "_" & decimal index)) (some command.timestamp)
    pure tt

  unfoldable pub append_refund_audit : CreateRefundCommand → Return → Exec World ℕ
  append_refund_audit command return =
      append_audit_record env "billing.refund_created" command.actor_id "refund" command.refund_id
        command.correlation_id (some command.timestamp)
        (dict (
          ("original_invoice_id", str command.original_invoice_id)
          ∷ amounts return (("line_count", int (pos (length command.lines))) ∷ [])))
        (some ("audit_refund_created_" & command.refund_id))

  unfoldable pub append_refund_event : CreateRefundCommand → Return → Exec World ℕ
  append_refund_event command return =
      append_business_event env "billing.refund_completed.v1" command.actor_id
        (dict (
          ("refund_id", str command.refund_id)
          ∷ ("original_invoice_id", str command.original_invoice_id)
          ∷ ("currency", str command.currency)
          ∷ amounts return (("line_count", int (pos (length command.lines))) ∷ [])))
        (some command.correlation_id) (some command.timestamp)
        (some ("event_refund_completed_" & command.refund_id))

  -- The writes of `create_refund`.
  unfoldable pub write_refund : CreateRefundCommand → Return → Exec World RefundResult
  write_refund command return = do
    hex ← uuid4_hex env
    let transaction_id = "txn_billing_create_refund_" & command.refund_id & "_" & hex
    append_wal_pending env transaction_id command.timestamp command.actor_id command.correlation_id
        (dict (
          ("operation", str "billing.create_refund")
          ∷ ("refund_id", str command.refund_id)
          ∷ ("original_invoice_id", str command.original_invoice_id)
          ∷ ("journal_id", str return.journal_id)
          ∷ ("movement_ids", arr (str_list return.movement_ids))
          ∷ amounts return (("currency", str command.currency) ∷ [])))
    accounting.post_journal (return_journal posting_accounts command return)
    for_each (returned 1 command.lines return.cogs_by_line) (restock_line command)
    append_refund command return
    for_each (returned 1 command.lines return.cogs_by_line) (append_refund_line command)
    append_refund_audit command return
    append_refund_event command return
    append_wal_committed env transaction_id command.timestamp command.actor_id
        command.correlation_id
    pure (record {
      refund_id = command.refund_id;
      original_invoice_id = command.original_invoice_id;
      journal_id = return.journal_id;
      movement_ids = return.movement_ids;
      subtotal_minor = return.subtotal;
      tax_minor = return.tax;
      total_minor = return.total;
      currency = command.currency;
    })

  unfoldable pub create_refund : CreateRefundCommand → Exec World RefundResult
  create_refund command = do return ← reads (plan_refund command); write_refund command return
