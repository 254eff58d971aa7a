-- ===== src/Tests/Sales.antt =====
-- Runs of the billing service.
use bms_gui.Prelude.{
  true, false, ◌≡◌, refl, ◌+ℤ◌, ◌*ℤ◌, ◌≤ℤ◌, ◌<ℤ◌, pos, List, [], ◌∷◌, if◌then◌else◌,
}
use bms_gui.Json.{dict, str, int}
use bms_gui.Result.{Error, ok, err}
use bms_gui.Store.{World, FilePath, invoice_lines, path_eq, AppendRecord}
use bms_gui.Accounting.Validation.{debit_total, credit_total}
use bms_gui.Billing.Models.{sales_posting_accounts}
use bms_gui.Billing.Tax.{calculate_tax}
use bms_gui.Billing.Tax.Bounds.{calculate_tax-floor}
use bms_gui.Billing.Invoices.Sale.{sale_of, sale_journal_lines}
use bms_gui.Billing.Invoices.Sale.Balanced.{sale_journal_lines-balanced}
use bms_gui.Billing.Refunds.Return.{return_of, return_journal_lines}
use bms_gui.Billing.Refunds.Return.Balanced.{return_journal_lines-balanced}
use bms_gui.Billing.Refundable.{validate_refund_against_original_invoice}
use bms_gui.Billing.Refundable.Bounded.{
  IsRefundable, validate_refund_against_original_invoice-IsRefundable,
}
use bms_gui.Accounting.Models.{baseline_chart_of_accounts}
use bms_gui.Accounting.Port.{accounting_service, is_period_closed}
use bms_gui.Inventory.Port.{inventory_service}
use bms_gui.Billing.Invoices.Writing.{create_invoice}
use bms_gui.Billing.Refused.{create_invoice-closed}
use bms_gui.Tests.Setup.{runs, env, new_world, sale, return_of_one}

calculate_tax-floor_example :
    (calculate_tax (pos 999) (pos 1800) *ℤ pos 10000 ≤ℤ pos 999 *ℤ pos 1800)
    × (pos 999 *ℤ pos 1800 <ℤ (calculate_tax (pos 999) (pos 1800) +ℤ pos 1) *ℤ pos 10000)
calculate_tax-floor_example = calculate_tax-floor (pos 999) (pos 1800)

sale_journal_lines-balanced_example :
    debit_total
      (sale_journal_lines sales_posting_accounts sale (sale_of (pos 1800) sale (pos 80 ∷ [])))
    ≡ credit_total
        (sale_journal_lines sales_posting_accounts sale (sale_of (pos 1800) sale (pos 80 ∷ [])))
sale_journal_lines-balanced_example =
    sale_journal_lines-balanced sales_posting_accounts (pos 1800) sale (pos 80 ∷ [])

return_journal_lines-balanced_example :
    debit_total (
      return_journal_lines sales_posting_accounts return_of_one
        (return_of (pos 1800) return_of_one (pos 40 ∷ [])))
    ≡ credit_total (
        return_journal_lines sales_posting_accounts return_of_one
          (return_of (pos 1800) return_of_one (pos 40 ∷ [])))
return_journal_lines-balanced_example =
    return_journal_lines-balanced sales_posting_accounts (pos 1800) return_of_one (pos 40 ∷ [])

-- The record of the line of an invoice.
abbrev sold_line : AppendRecord
sold_line = record {
  record_id = "ivl_i1_1";
  record_type = "billing.invoice_line";
  created_at = "2026-01-15T10:00:00Z";
  actor_id = "ann";
  correlation_id = "c3";
  idempotency_key = "invoice_line_i1_1";
  payload = dict (
      ("invoice_id", str "i1")
      ∷ ("item_id", str "tea")
      ∷ ("quantity", int (pos 2))
      ∷ ("unit_price_minor", int (pos 99))
      ∷ []);
  schema_version = 1;
}

abbrev only : FilePath → FilePath → List AppendRecord
only path q = if path_eq path q then sold_line ∷ [] else []

abbrev sold_world : World
sold_world = record new_world { tables = only invoice_lines }

refund_run : validate_refund_against_original_invoice env return_of_one sold_world ≡ ok tt
unfolding runs
refund_run = refl

validate_refund_against_original_invoice-IsRefundable_example :
    IsRefundable return_of_one sold_world
validate_refund_against_original_invoice-IsRefundable_example =
    validate_refund_against_original_invoice-IsRefundable env return_of_one sold_world refund_run

abbrev closed_world : World
closed_world = record new_world { closed_periods = "FY2026-01" ∷ [] }

period_shut : is_period_closed "FY2026-01" closed_world ≡ true
unfolding is_period_closed
period_shut = refl

create_invoice-closed_example :
    (e : Error) × (create_invoice env
        (inventory_service env false)
        (accounting_service env baseline_chart_of_accounts)
        (pos 1800)
        sales_posting_accounts
        sale
        closed_world
      ≡ (err e, closed_world))
create_invoice-closed_example =
    create_invoice-closed env (inventory_service env false)
      (accounting_service env baseline_chart_of_accounts) (pos 1800) sales_posting_accounts sale
      closed_world period_shut
