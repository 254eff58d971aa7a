-- ===== src/Tests/Reports.antt =====
-- Runs of the reports.
use bms_gui.Prelude.{String, ◌≡◌, refl, [], ◌∷◌, none, some, pos, if◌then◌else◌}
use bms_gui.Dict.{Dict, lookup_or}
use bms_gui.Dict.Keys.{string_key}
use bms_gui.Json.{Payload, str, int, arr, str_list, dict}
use bms_gui.Result.{ok}
use bms_gui.Store.{World, invoices, refunds, stock_movements, journal_lines, path_eq, payloads}
use bms_gui.Accounting.Models.{LedgerBalance, baseline_chart_of_accounts}
use bms_gui.Accounting.Balances.{get_ledger_balances}
use bms_gui.Dict.{values}
use bms_gui.Inventory.Stock.{get_all_stock_on_hand, get_stock_on_hand}
use bms_gui.Inventory.Stock.Together.{get_all_stock_on_hand-get_stock_on_hand}
use bms_gui.Reporting.Models.{InvoiceReport, RefundReport, ProfitAndLossReport}
use bms_gui.Reporting.Documents.{get_invoice_report, get_refund_report}
use bms_gui.Reporting.Documents.Reports.{
  IsInvoiceReport, IsRefundReport, get_invoice_report-IsInvoiceReport,
  get_refund_report-IsRefundReport,
}
use bms_gui.Reporting.Ledger.{get_profit_and_loss_report}
use bms_gui.Reporting.Ledger.Profit.{total_profit, get_profit_and_loss_report-total_profit}
use bms_gui.Tests.Setup.{runs, env, new_world, stored}

abbrev invoice : Payload
invoice = dict (
    ("invoice_id", str "i1")
    ∷ ("customer_id", str "bob")
    ∷ ("period_id", str "P1")
    ∷ ("timestamp", str "T1")
    ∷ ("status", str "completed")
    ∷ ("payment_method", str "cash")
    ∷ ("currency", str "INR")
    ∷ ("subtotal_minor", int (pos 100))
    ∷ ("tax_minor", int (pos 18))
    ∷ ("total_minor", int (pos 118))
    ∷ [])

abbrev refund : Payload
refund = dict (
    ("refund_id", str "r1")
    ∷ ("original_invoice_id", str "i1")
    ∷ ("period_id", str "P1")
    ∷ ("timestamp", str "T2")
    ∷ ("status", str "completed")
    ∷ ("reason", str "damaged")
    ∷ ("currency", str "INR")
    ∷ ("subtotal_minor", int (pos 50))
    ∷ ("tax_minor", int (pos 9))
    ∷ ("total_minor", int (pos 59))
    ∷ ("journal_id", str "j2")
    ∷ ("movement_ids", arr (str_list ("m1" ∷ [])))
    ∷ [])

abbrev movement : Payload
movement = dict (("item_id", str "tea") ∷ ("quantity_delta", int (pos 5)) ∷ [])

abbrev revenue_line : Payload
revenue_line = dict (
    ("account_code", str "4000")
    ∷ ("period_id", str "P1")
    ∷ ("currency", str "INR")
    ∷ ("debit_minor", int (pos 0))
    ∷ ("credit_minor", int (pos 100))
    ∷ [])

abbrev report_world : World
report_world = record new_world {
  tables = λ path.
      if path_eq invoices path
      then stored "i1" invoice ∷ []
      else if path_eq refunds path
      then stored "r1" refund ∷ []
      else if path_eq stock_movements path
      then stored "m1" movement ∷ []
      else if path_eq journal_lines path
      then stored "l1" revenue_line ∷ []
      else [];
}

abbrev invoice_report : InvoiceReport
invoice_report = record {
  period_id = some "P1";
  rows =
      record {
        invoice_id = "i1";
        customer_id = "bob";
        period_id = "P1";
        timestamp = "T1";
        status = "completed";
        payment_method = "cash";
        currency = "INR";
        subtotal_minor = pos 100;
        tax_minor = pos 18;
        total_minor = pos 118;
      }
      ∷ [];
  totals =
      record {
        currency = "INR";
        subtotal_minor = pos 100;
        tax_minor = pos 18;
        total_minor = pos 118;
      }
      ∷ [];
}

invoice_report_run : get_invoice_report env (some "P1") report_world ≡ ok invoice_report
unfolding runs
invoice_report_run = refl

get_invoice_report-IsInvoiceReport_example :
    IsInvoiceReport (some "P1") (payloads invoices report_world) invoice_report
get_invoice_report-IsInvoiceReport_example =
    get_invoice_report-IsInvoiceReport env (some "P1") report_world invoice_report_run

abbrev refund_report : RefundReport
refund_report = record {
  period_id = none;
  rows =
      record {
        refund_id = "r1";
        original_invoice_id = "i1";
        period_id = "P1";
        timestamp = "T2";
        status = "completed";
        reason = "damaged";
        currency = "INR";
        subtotal_minor = pos 50;
        tax_minor = pos 9;
        total_minor = pos 59;
        journal_id = "j2";
        movement_ids = "m1" ∷ [];
      }
      ∷ [];
  totals =
      record { currency = "INR"; subtotal_minor = pos 50; tax_minor = pos 9; total_minor = pos 59 }
      ∷ [];
}

refund_report_run : get_refund_report env none report_world ≡ ok refund_report
unfolding runs
refund_report_run = refl

get_refund_report-IsRefundReport_example :
    IsRefundReport none (payloads refunds report_world) refund_report
get_refund_report-IsRefundReport_example =
    get_refund_report-IsRefundReport env none report_world refund_report_run

all_stock_run : get_all_stock_on_hand env report_world ≡ ok (("tea", pos 5) ∷ [])
unfolding runs
all_stock_run = refl

get_all_stock_on_hand-get_stock_on_hand_example :
    get_stock_on_hand env "tea" report_world
    ≡ ok (lookup_or {K = String} "tea" (pos 0) (("tea", pos 5) ∷ []))
get_all_stock_on_hand-get_stock_on_hand_example =
    get_all_stock_on_hand-get_stock_on_hand env report_world "tea" all_stock_run

abbrev profit_report : ProfitAndLossReport
profit_report = record {
  period_id = "P1";
  currency = "INR";
  revenue_minor = pos 100;
  contra_revenue_minor = pos 0;
  net_revenue_minor = pos 100;
  cogs_minor = pos 0;
  gross_profit_minor = pos 100;
  expense_minor = pos 0;
  operating_expense_minor = pos 0;
  net_income_minor = pos 100;
}

profit_run : get_profit_and_loss_report env "P1" "INR" report_world ≡ ok profit_report
unfolding runs
profit_run = refl

get_profit_and_loss_report-total_profit_example :
    (found : Dict String LedgerBalance) × (get_ledger_balances env baseline_chart_of_accounts "P1"
        report_world
      ≡ ok found)
    × (profit_report.net_income_minor ≡ total_profit "INR" (values found))
get_profit_and_loss_report-total_profit_example =
    get_profit_and_loss_report-total_profit env "P1" "INR" report_world profit_run
