-- ===== src/Reporting/Documents/Reports.antt =====
-- What `get_invoice_report` and `get_refund_report` hold.
use bms_gui.Prelude.{String, ◌≡◌, sym, ap, subst, true, false, Option, List}
use bms_gui.Dict.Order.{str_le_total, lexical_total}
use bms_gui.Dict.Keys.{str_le}
use bms_gui.Json.{Payload}
use bms_gui.Result.{ok, ok-eq, >>=-eq-ok}
use bms_gui.Store.{Env, World, invoices, refunds, payloads, read_payloads}
use bms_gui.Store.Frame.{read_payloads-ok}
use bms_gui.Reporting.Models.{InvoiceReportRow, InvoiceReport, RefundReportRow, RefundReport}
use bms_gui.Reporting.Payloads.{str_payload, string_tuple_payload}
use bms_gui.Reporting.Documents.{
  Amounts, read_documents, invoice_row, refund_row, invoice_row_le, refund_row_le,
  invoice_report_of, refund_report_of, get_invoice_report, get_refund_report,
}
use bms_gui.Reporting.Documents.Gathered.{IsReported, read_documents-IsReported}

abbrev pub invoice_amounts : InvoiceReportRow → Amounts
invoice_amounts row = record {
  currency = row.currency;
  subtotal_minor = row.subtotal_minor;
  tax_minor = row.tax_minor;
  total_minor = row.total_minor;
}

abbrev pub refund_amounts : RefundReportRow → Amounts
refund_amounts row = record {
  currency = row.currency;
  subtotal_minor = row.subtotal_minor;
  tax_minor = row.tax_minor;
  total_minor = row.total_minor;
}

invoice_amounts-invoice_row :
    (period_id : String) (a : Amounts) (payload : Payload) (row : InvoiceReportRow)
    → invoice_row period_id a payload ≡ ok row
    → invoice_amounts row ≡ a
unfolding invoice_row
invoice_amounts-invoice_row period_id a payload row h =
    let (_, _, h1) = >>=-eq-ok (str_payload payload "invoice_id") _ h in
    let (_, _, h2) = >>=-eq-ok (str_payload payload "customer_id") _ h1 in
    let (_, _, h3) = >>=-eq-ok (str_payload payload "timestamp") _ h2 in
    let (_, _, h4) = >>=-eq-ok (str_payload payload "status") _ h3 in
    let (_, _, h5) = >>=-eq-ok (str_payload payload "payment_method") _ h4 in
    ap invoice_amounts (sym (ok-eq h5))

refund_amounts-refund_row :
    (period_id : String) (a : Amounts) (payload : Payload) (row : RefundReportRow)
    → refund_row period_id a payload ≡ ok row
    → refund_amounts row ≡ a
unfolding refund_row
refund_amounts-refund_row period_id a payload row h =
    let (_, _, h1) = >>=-eq-ok (str_payload payload "refund_id") _ h in
    let (_, _, h2) = >>=-eq-ok (str_payload payload "original_invoice_id") _ h1 in
    let (_, _, h3) = >>=-eq-ok (str_payload payload "timestamp") _ h2 in
    let (_, _, h4) = >>=-eq-ok (str_payload payload "status") _ h3 in
    let (_, _, h5) = >>=-eq-ok (str_payload payload "reason") _ h4 in
    let (_, _, h6) = >>=-eq-ok (str_payload payload "journal_id") _ h5 in
    let (_, _, h7) = >>=-eq-ok (string_tuple_payload payload "movement_ids") _ h6 in
    ap refund_amounts (sym (ok-eq h7))

invoice_row_le_total :
    (a b : InvoiceReportRow) → invoice_row_le a b ≡ false → invoice_row_le b a ≡ true
invoice_row_le_total a b h =
    lexical_total str_le a.timestamp b.timestamp a.invoice_id b.invoice_id str_le_total h

refund_row_le_total : (a b : RefundReportRow) → refund_row_le a b ≡ false → refund_row_le b a ≡ true
refund_row_le_total a b h =
    lexical_total str_le a.timestamp b.timestamp a.refund_id b.refund_id str_le_total h

abbrev pub IsInvoiceReport : Option String → List Payload → InvoiceReport → Type 0
IsInvoiceReport period_id documents report =
    IsReported invoice_row invoice_amounts invoice_row_le period_id documents report.rows
      report.totals

abbrev pub IsRefundReport : Option String → List Payload → RefundReport → Type 0
IsRefundReport period_id documents report =
    IsReported refund_row refund_amounts refund_row_le period_id documents report.rows report.totals

module _ (env : Env) where
  -- Where `get_invoice_report` returned, its rows are a permutation of those of the stored
  -- invoices of the period, in ascending order of time and id, and each of its totals is the sum
  -- over the rows of its currency.
  pub get_invoice_report-IsInvoiceReport :
      (period_id : Option String) (w : World) {report : InvoiceReport}
      → get_invoice_report env period_id w ≡ ok report
      → IsInvoiceReport period_id (payloads invoices w) report
  unfolding get_invoice_report invoice_report_of
  get_invoice_report-IsInvoiceReport period_id w {report} h =
      let (documents, found, h1) = >>=-eq-ok (read_payloads env invoices w) _ h in
      let (reading, read, e) = >>=-eq-ok (read_documents invoice_row period_id documents) _ h1 in
      subst (λ ps. IsInvoiceReport period_id ps report)
        (sym (read_payloads-ok env invoices w found))
        (subst (IsInvoiceReport period_id documents) (ok-eq e) (
          read_documents-IsReported invoice_row invoice_amounts invoice_amounts-invoice_row
            invoice_row_le period_id documents reading invoice_row_le_total read))

  -- Where `get_refund_report` returned, its rows are a permutation of those of the stored refunds
  -- of the period, in ascending order of time and id, and each of its totals is the sum over the
  -- rows of its currency.
  pub get_refund_report-IsRefundReport :
      (period_id : Option String) (w : World) {report : RefundReport}
      → get_refund_report env period_id w ≡ ok report
      → IsRefundReport period_id (payloads refunds w) report
  unfolding get_refund_report refund_report_of
  get_refund_report-IsRefundReport period_id w {report} h =
      let (documents, found, h1) = >>=-eq-ok (read_payloads env refunds w) _ h in
      let (reading, read, e) = >>=-eq-ok (read_documents refund_row period_id documents) _ h1 in
      subst (λ ps. IsRefundReport period_id ps report) (sym (read_payloads-ok env refunds w found))
        (subst (IsRefundReport period_id documents) (ok-eq e) (
          read_documents-IsReported refund_row refund_amounts refund_amounts-refund_row
            refund_row_le period_id documents reading refund_row_le_total read))
