-- ===== src/Billing/Invoices/Writing.antt =====
-- The body of `create_invoice`: the checks, and the writes under one transaction of the log.
use bms_gui.Prelude.{ℕ, suc, ◌+◌, String, Option, none, some, List, [], ◌∷◌, length, ℤ, pos, neg}
use bms_gui.Fields.{◌&◌, enumerate, decimal, checked_div}
use bms_gui.Json.{Value, Payload, str, int, arr, obj, dict, str_list}
use bms_gui.Result as R
use bms_gui.Result.{Result, ok, billing_error, fail_if}
use bms_gui.Exec.{Exec, pure, reads, lift, for_each, ◌>>=◌, ◌>>◌}
use bms_gui.Store.{
  Env, World, invoices, invoice_lines, uuid4_hex, append_wal_pending, append_wal_committed,
  append_record, append_audit_record, append_business_event, read_payloads,
}
use bms_gui.Accounting.Models.{JournalLine}
use bms_gui.Accounting.Port.{AccountingPort}
use bms_gui.Inventory.Models.{Item, stock_out}
use bms_gui.Inventory.Port.{InventoryPort}
use bms_gui.Billing.Models.{
  InvoiceLineCommand, CreateInvoiceCommand, InvoiceResult, SalesPostingAccounts,
}
use bms_gui.Billing.Payloads.{reject_duplicate_invoice}
use bms_gui.Billing.Invoices.Sale.{
  Sale, validate_command, sale_of, sale_journal_lines, sale_journal, invoice_movement_id,
  line_amount,
}
use bms_gui.Billing.Invoices.Stock.{validate_stock_available, cogs_by_line}

-- A line with its number and the cost of its goods.
abbrev pub CostedLine : Type 0
CostedLine = ℕ × InvoiceLineCommand × ℤ

abbrev pub costed : ℕ → List InvoiceLineCommand → List ℤ → List CostedLine
costed index (line ∷ lines) (cogs ∷ rest) = (index, line, cogs) ∷ costed (suc index) lines rest
costed _ _ _ = []

-- `item.business_unit if item is not None else "retail"`
abbrev pub unit_or_retail : Option Item → String
unit_or_retail none = "retail"
unit_or_retail (some item) = item.business_unit

abbrev amounts : Sale → List (String × Value) → List (String × Value)
amounts sale rest =
    ("subtotal_minor", int sale.subtotal)
    ∷ ("tax_minor", int sale.tax)
    ∷ ("total_minor", int sale.total)
    ∷ rest

-- The payload of the pending record of the log.
unfoldable pub invoice_wal_payload : CreateInvoiceCommand → Sale → List JournalLine → Payload
invoice_wal_payload command sale journal_lines = dict (
    ("operation", str "billing.create_invoice")
    ∷ ("invoice_id", str command.invoice_id)
    ∷ ("journal_id", str sale.journal_id)
    ∷ ("movement_ids", arr (str_list sale.movement_ids))
    ∷ (
      "expected_records",
      obj (
          dict (
            ("billing.invoices", int (pos 1))
            ∷ ("billing.invoice_lines", int (pos (length command.lines)))
            ∷ ("inventory.stock_movements", int (pos (length command.lines)))
            ∷ ("accounting.journal_entries", int (pos 1))
            ∷ ("accounting.journal_lines", int (pos (length journal_lines)))
            ∷ ("audit.records", int (pos (length command.lines + 2)))
            ∷ ("business_events", int (pos (length command.lines + 2)))
            ∷ [])),
    )
    ∷ amounts sale (("cogs_minor", int sale.cogs_total) ∷ ("currency", str command.currency) ∷ []))

unfoldable pub invoice_payload : CreateInvoiceCommand → Sale → Payload
invoice_payload command sale = dict (
    ("invoice_id", str command.invoice_id)
    ∷ ("customer_id", str command.customer_id)
    ∷ ("period_id", str command.period_id)
    ∷ ("timestamp", str command.timestamp)
    ∷ ("actor_id", str command.actor_id)
    ∷ ("payment_method", str command.payment_method)
    ∷ ("currency", str command.currency)
    ∷ amounts sale (
        ("journal_id", str sale.journal_id)
        ∷ ("movement_ids", arr (str_list sale.movement_ids))
        ∷ ("correlation_id", str command.correlation_id)
        ∷ ("status", str "completed")
        ∷ []))

unfoldable pub invoice_line_payload : CreateInvoiceCommand → CostedLine → String → ℤ → Payload
invoice_line_payload command (index, line, cogs) business_unit cogs_unit_cost = dict (
    ("invoice_id", str command.invoice_id)
    ∷ ("line_no", int (pos index))
    ∷ ("item_id", str line.item_id)
    ∷ ("description", str line.description)
    ∷ ("business_unit", str business_unit)
    ∷ ("quantity", int line.quantity)
    ∷ ("unit_price_minor", int line.unit_price_minor)
    ∷ ("line_subtotal_minor", int (line_amount line))
    ∷ ("cogs_unit_cost_minor", int cogs_unit_cost)
    ∷ ("cogs_minor", int cogs)
    ∷ ("currency", str command.currency)
    ∷ [])

module _ (env : Env) (inventory : InventoryPort) (accounting : AccountingPort) (tax_rate : ℤ)
    (posting_accounts : SalesPostingAccounts) where
  -- The checks and the reads, up to the first write.
  unfoldable pub plan_invoice : CreateInvoiceCommand → World → Result Sale
  plan_invoice command w = R.◌>>◌ (validate_command tax_rate command) (
      R.◌>>◌ (R.◌>>=◌ (read_payloads env invoices w) (reject_duplicate_invoice command.invoice_id))
        (R.◌>>◌
          (fail_if (accounting.is_period_closed command.period_id w)
            (billing_error ("period " & command.period_id & " is closed")))
          (R.◌>>◌ (validate_stock_available inventory command w) (
            R.◌>>=◌ (cogs_by_line inventory command w)
              λ cogs. ok (sale_of tax_rate command cogs)))))

  -- A stock movement for a line, at the average cost of that moment.
  unfoldable pub move_stock : CreateInvoiceCommand → ℕ × InvoiceLineCommand → Exec World (Unit {0})
  move_stock command (index, line) = do
    unit_cost ← reads (inventory.get_weighted_average_unit_cost_minor line.item_id)
    inventory.commit_movement (record {
      movement_id = invoice_movement_id command index;
      item_id = line.item_id;
      movement_type = stock_out;
      quantity_delta = neg line.quantity;
      timestamp = command.timestamp;
      actor_id = command.actor_id;
      reason = "invoice sale";
      source_module = "billing";
      source_document_id = command.invoice_id;
      correlation_id = command.correlation_id;
      unit_cost_minor = unit_cost;
      period_id = "";
    })
    pure tt

  unfoldable pub append_invoice : CreateInvoiceCommand → Sale → Exec World ℕ
  append_invoice command sale =
      append_record env invoices "billing.invoice" command.actor_id command.correlation_id
        ("invoice_" & command.invoice_id) (invoice_payload command sale)
        (some ("inv_" & command.invoice_id)) (some command.timestamp)

  unfoldable pub append_invoice_line : CreateInvoiceCommand → CostedLine → Exec World (Unit {0})
  append_invoice_line command (index, line, cogs) = do
    item ← reads (inventory.get_item line.item_id)
    cogs_unit_cost ← lift (checked_div cogs line.quantity)
    append_record env invoice_lines "billing.invoice_line" command.actor_id command.correlation_id
        ("invoice_line_" & command.invoice_id & "_" & decimal index)
        (invoice_line_payload command (index, line, cogs) (unit_or_retail item) cogs_unit_cost)
        (some ("ivl_" & command.invoice_id & "_" & decimal index)) (some command.timestamp)
    pure tt

  unfoldable pub append_invoice_audit : CreateInvoiceCommand → Sale → Exec World ℕ
  append_invoice_audit command sale =
      append_audit_record env "billing.invoice_created" command.actor_id "invoice"
        command.invoice_id command.correlation_id (some command.timestamp)
        (dict (
          ("customer_id", str command.customer_id)
          ∷ amounts sale (("line_count", int (pos (length command.lines))) ∷ [])))
        (some ("audit_invoice_created_" & command.invoice_id))

  unfoldable pub append_invoice_event : CreateInvoiceCommand → Sale → Exec World ℕ
  append_invoice_event command sale =
      append_business_event env "billing.sale_completed.v1" command.actor_id
        (dict (
          ("invoice_id", str command.invoice_id)
          ∷ ("customer_id", str command.customer_id)
          ∷ ("currency", str command.currency)
          ∷ amounts sale (
              ("payment_method", str command.payment_method)
              ∷ ("line_count", int (pos (length command.lines)))
              ∷ [])))
        (some command.correlation_id) (some command.timestamp)
        (some ("event_sale_completed_" & command.invoice_id))

  -- The writes of `create_invoice`.
  unfoldable pub write_invoice : CreateInvoiceCommand → Sale → Exec World InvoiceResult
  write_invoice command sale = do
    hex ← uuid4_hex env
    let transaction_id = "txn_billing_create_invoice_" & command.invoice_id & "_" & hex
    append_wal_pending env transaction_id command.timestamp command.actor_id command.correlation_id
        (invoice_wal_payload command sale (sale_journal_lines posting_accounts command sale))
    accounting.post_journal (sale_journal posting_accounts command sale)
    for_each (enumerate 1 command.lines) (move_stock command)
    append_invoice command sale
    for_each (costed 1 command.lines sale.cogs_by_line) (append_invoice_line command)
    append_invoice_audit command sale
    append_invoice_event command sale
    append_wal_committed env transaction_id command.timestamp command.actor_id
        command.correlation_id
    pure (record {
      invoice_id = command.invoice_id;
      journal_id = sale.journal_id;
      movement_ids = sale.movement_ids;
      subtotal_minor = sale.subtotal;
      tax_minor = sale.tax;
      total_minor = sale.total;
      currency = command.currency;
    })

  unfoldable pub create_invoice : CreateInvoiceCommand → Exec World InvoiceResult
  create_invoice command = do sale ← reads (plan_invoice command); write_invoice command sale
