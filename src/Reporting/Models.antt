-- ===== src/Reporting/Models.antt =====
-- src/bms/domain/reporting/models.py.
use bms_gui.Prelude.{String, Bool, Option, List, ℤ}

pub record CurrencyTotals : Type 0 where
  pub currency : String
  pub subtotal_minor : ℤ
  pub tax_minor : ℤ
  pub total_minor : ℤ

pub record BusinessUnitRevenueRow : Type 0 where
  pub business_unit : String
  pub currency : String
  pub invoice_subtotal_minor : ℤ
  pub refund_subtotal_minor : ℤ
  pub net_revenue_minor : ℤ

pub record BusinessUnitRevenueReport : Type 0 where
  pub period_id : Option String
  pub rows : List BusinessUnitRevenueRow

pub record InvoiceReportRow : Type 0 where
  pub invoice_id : String
  pub customer_id : String
  pub period_id : String
  pub timestamp : String
  pub status : String
  pub payment_method : String
  pub currency : String
  pub subtotal_minor : ℤ
  pub tax_minor : ℤ
  pub total_minor : ℤ

pub record InvoiceReport : Type 0 where
  pub period_id : Option String
  pub rows : List InvoiceReportRow
  pub totals : List CurrencyTotals

pub record RefundReportRow : Type 0 where
  pub refund_id : String
  pub original_invoice_id : String
  pub period_id : String
  pub timestamp : String
  pub status : String
  pub reason : String
  pub currency : String
  pub subtotal_minor : ℤ
  pub tax_minor : ℤ
  pub total_minor : ℤ
  pub journal_id : String
  pub movement_ids : List String

pub record RefundReport : Type 0 where
  pub period_id : Option String
  pub rows : List RefundReportRow
  pub totals : List CurrencyTotals

pub record RefundAvailabilityReportRow : Type 0 where
  pub invoice_id : String
  pub period_id : String
  pub item_id : String
  pub description : String
  pub currency : String
  pub unit_price_minor : ℤ
  pub original_quantity : ℤ
  pub refunded_quantity : ℤ
  pub remaining_quantity : ℤ
  pub original_subtotal_minor : ℤ
  pub refunded_subtotal_minor : ℤ
  pub remaining_subtotal_minor : ℤ

pub record RefundAvailabilityReport : Type 0 where
  pub period_id : Option String
  pub rows : List RefundAvailabilityReportRow

pub record StockReportRow : Type 0 where
  pub item_id : String
  pub sku : String
  pub name : String
  pub business_unit : String
  pub active : Bool
  pub quantity_on_hand : ℤ
  pub average_unit_cost_minor : ℤ
  pub inventory_value_minor : ℤ
  pub low_stock : Bool

pub record StockReport : Type 0 where
  pub low_stock_threshold : ℤ
  pub rows : List StockReportRow

pub record LedgerReportRow : Type 0 where
  pub period_id : String
  pub account_code : String
  pub account_name : String
  pub account_type : String
  pub debit_total_minor : ℤ
  pub credit_total_minor : ℤ
  pub balance_minor : ℤ
  pub currency : String

pub record LedgerReport : Type 0 where
  pub period_id : String
  pub rows : List LedgerReportRow

pub record ProfitAndLossReport : Type 0 where
  pub period_id : String
  pub currency : String
  pub revenue_minor : ℤ
  pub contra_revenue_minor : ℤ
  pub net_revenue_minor : ℤ
  pub cogs_minor : ℤ
  pub gross_profit_minor : ℤ
  pub expense_minor : ℤ
  pub operating_expense_minor : ℤ
  pub net_income_minor : ℤ

pub record TaxReport : Type 0 where
  pub period_id : String
  pub currency : String
  pub invoice_tax_collected_minor : ℤ
  pub tax_payable_balance_minor : ℤ

pub record TrialBalanceReport : Type 0 where
  pub period_id : String
  pub debit_total_minor : ℤ
  pub credit_total_minor : ℤ
  pub is_balanced : Bool
