-- ===== src/Reporting/Documents.antt =====
-- The reports on invoices and refunds of src/bms/domain/reporting/service.py: `get_invoice_report`
-- and `get_refund_report`.
pub mod Totals
pub mod Gathered
pub mod Reports
use bms_gui.Prelude.{
  String, Bool, Option, none, some, List, [], ◌∷◌, ◌++◌, ℤ, pos, ◌+ℤ◌, sort_by, if◌then◌else◌,
}
use bms_gui.Dict.{Dict, lookup_or, insert, values}
use bms_gui.Dict.Keys.{string_key, sorted_items}
use bms_gui.Json.{Payload}
use bms_gui.Result.{Result, ok, ◌>>=◌, fold_each}
use bms_gui.Store.{Env, World, invoices, refunds, read_payloads}
use bms_gui.Reporting.Models.{
  CurrencyTotals, InvoiceReportRow, InvoiceReport, RefundReportRow, RefundReport,
}
use bms_gui.Reporting.Payloads.{str_payload, int_payload, string_tuple_payload, in_period, pair_le}

-- The three amounts of a document.
pub record Amounts : Type 0 where
  pub currency : String
  pub subtotal_minor : ℤ
  pub tax_minor : ℤ
  pub total_minor : ℤ

unfoldable pub amounts_of : Payload → Result Amounts
amounts_of payload = do
  currency ← str_payload payload "currency"
  subtotal ← int_payload payload "subtotal_minor"
  tax ← int_payload payload "tax_minor"
  total ← int_payload payload "total_minor"
  ok (record {
    currency = currency;
    subtotal_minor = subtotal;
    tax_minor = tax;
    total_minor = total;
  })

abbrev pub no_totals : String → CurrencyTotals
no_totals currency = record {
  currency = currency;
  subtotal_minor = pos 0;
  tax_minor = pos 0;
  total_minor = pos 0;
}

abbrev pub plus : CurrencyTotals → Amounts → CurrencyTotals
plus totals a = record {
  currency = totals.currency;
  subtotal_minor = totals.subtotal_minor +ℤ a.subtotal_minor;
  tax_minor = totals.tax_minor +ℤ a.tax_minor;
  total_minor = totals.total_minor +ℤ a.total_minor;
}

-- `totals_by_currency.setdefault(currency, ...)` and the three additions.
unfoldable pub add_amounts : Amounts → Dict String CurrencyTotals → Dict String CurrencyTotals
add_amounts a totals =
    insert a.currency (plus (lookup_or a.currency (no_totals a.currency) totals) a) totals

-- The rows read so far, and the totals of each currency.
abbrev pub Reading : Type 0 → Type 0
Reading Row = List Row × Dict String CurrencyTotals

-- The loop of both reports: a document of the period gives a row and adds to the totals.
module _ {Row : Type 0} (row_of : String → Amounts → Payload → Result Row) where
  unfoldable pub add_document : Option String → Reading Row → Payload → Result (Reading Row)
  add_document period_id (rows, totals) payload = do
    found ← str_payload payload "period_id"
    let read_row : Result (Reading Row) = do
      amounts ← amounts_of payload
      row ← row_of found amounts payload
      ok (rows ++ row ∷ [], add_amounts amounts totals)
    if in_period period_id found then read_row else ok (rows, totals)

  unfoldable pub read_documents : Option String → List Payload → Result (Reading Row)
  read_documents period_id documents = fold_each (add_document period_id) ([], []) documents

-- `totals` of a report, sorted by currency.
unfoldable pub totals_of : Dict String CurrencyTotals → List CurrencyTotals
totals_of totals = values (sorted_items totals)

unfoldable pub invoice_row : String → Amounts → Payload → Result InvoiceReportRow
invoice_row period_id amounts payload = do
  invoice_id ← str_payload payload "invoice_id"
  customer_id ← str_payload payload "customer_id"
  timestamp ← str_payload payload "timestamp"
  status ← str_payload payload "status"
  payment_method ← str_payload payload "payment_method"
  ok (record {
    invoice_id = invoice_id;
    customer_id = customer_id;
    period_id = period_id;
    timestamp = timestamp;
    status = status;
    payment_method = payment_method;
    currency = amounts.currency;
    subtotal_minor = amounts.subtotal_minor;
    tax_minor = amounts.tax_minor;
    total_minor = amounts.total_minor;
  })

unfoldable pub refund_row : String → Amounts → Payload → Result RefundReportRow
refund_row period_id amounts payload = do
  refund_id ← str_payload payload "refund_id"
  original_invoice_id ← str_payload payload "original_invoice_id"
  timestamp ← str_payload payload "timestamp"
  status ← str_payload payload "status"
  reason ← str_payload payload "reason"
  journal_id ← str_payload payload "journal_id"
  movement_ids ← string_tuple_payload payload "movement_ids"
  ok (record {
    refund_id = refund_id;
    original_invoice_id = original_invoice_id;
    period_id = period_id;
    timestamp = timestamp;
    status = status;
    reason = reason;
    currency = amounts.currency;
    subtotal_minor = amounts.subtotal_minor;
    tax_minor = amounts.tax_minor;
    total_minor = amounts.total_minor;
    journal_id = journal_id;
    movement_ids = movement_ids;
  })

-- The orders of the rows.
abbrev pub invoice_row_le : InvoiceReportRow → InvoiceReportRow → Bool
invoice_row_le a b = pair_le (a.timestamp, a.invoice_id) (b.timestamp, b.invoice_id)

abbrev pub refund_row_le : RefundReportRow → RefundReportRow → Bool
refund_row_le a b = pair_le (a.timestamp, a.refund_id) (b.timestamp, b.refund_id)

-- `get_invoice_report`, over the payloads of the invoices.
unfoldable pub invoice_report_of : Option String → List Payload → Result InvoiceReport
invoice_report_of period_id documents = do
  read ← read_documents invoice_row period_id documents
  ok (record {
    period_id = period_id;
    rows = sort_by invoice_row_le read.0;
    totals = totals_of read.1;
  })

-- `get_refund_report`, over the payloads of the refunds.
unfoldable pub refund_report_of : Option String → List Payload → Result RefundReport
refund_report_of period_id documents = do
  read ← read_documents refund_row period_id documents
  ok (record {
    period_id = period_id;
    rows = sort_by refund_row_le read.0;
    totals = totals_of read.1;
  })

module _ (env : Env) where
  unfoldable pub get_invoice_report : Option String → World → Result InvoiceReport
  get_invoice_report period_id w = read_payloads env invoices w >>= invoice_report_of period_id

  unfoldable pub get_refund_report : Option String → World → Result RefundReport
  get_refund_report period_id w = read_payloads env refunds w >>= refund_report_of period_id
