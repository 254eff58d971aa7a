-- ===== src/Billing/Models.antt =====
-- src/bms/domain/billing/models.py, and the accounts that billing posts to.
use bms_gui.Prelude.{String, Bool, List, ℤ}

pub record InvoiceLineCommand : Type 0 where
  pub item_id : String
  pub quantity : ℤ
  pub unit_price_minor : ℤ
  pub description : String

pub record CreateInvoiceCommand : Type 0 where
  pub invoice_id : String
  pub customer_id : String
  pub period_id : String
  pub timestamp : String
  pub actor_id : String
  pub correlation_id : String
  pub payment_method : String
  pub currency : String
  pub lines : List InvoiceLineCommand

pub record InvoiceResult : Type 0 where
  pub invoice_id : String
  pub journal_id : String
  pub movement_ids : List String
  pub subtotal_minor : ℤ
  pub tax_minor : ℤ
  pub total_minor : ℤ
  pub currency : String

pub record RefundLineCommand : Type 0 where
  pub item_id : String
  pub quantity : ℤ
  pub unit_price_minor : ℤ
  pub description : String
  pub restock : Bool

pub record CreateRefundCommand : Type 0 where
  pub refund_id : String
  pub original_invoice_id : String
  pub period_id : String
  pub timestamp : String
  pub actor_id : String
  pub correlation_id : String
  pub currency : String
  pub reason : String
  pub lines : List RefundLineCommand

pub record RefundResult : Type 0 where
  pub refund_id : String
  pub original_invoice_id : String
  pub journal_id : String
  pub movement_ids : List String
  pub subtotal_minor : ℤ
  pub tax_minor : ℤ
  pub total_minor : ℤ
  pub currency : String

pub record SalesPostingAccounts : Type 0 where
  pub cash : String
  pub inventory : String
  pub sales_revenue : String
  pub sales_returns : String
  pub cost_of_goods_sold : String
  pub output_tax_payable : String

-- The defaults.
abbrev pub sales_posting_accounts : SalesPostingAccounts
sales_posting_accounts = record {
  cash = "1000";
  inventory = "1200";
  sales_revenue = "4000";
  sales_returns = "4100";
  cost_of_goods_sold = "5000";
  output_tax_payable = "2100";
}
