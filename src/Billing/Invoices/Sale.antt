-- ===== src/Billing/Invoices/Sale.antt =====
-- The amounts of an invoice and the journal that it posts.
pub mod Balanced
use bms_gui.Prelude.{
  ℕ, String, Bool, not, Option, none, some, List, [], ◌∷◌, ◌++◌, map, is_empty, ℤ, pos, ◌+ℤ◌, ◌*ℤ◌,
  leb_ℤ, ltb_ℤ, nonzero, sum, if◌then◌else◌,
}
use bms_gui.Fields.{◌&◌, truthy, require_fields, enumerate, decimal}
use bms_gui.Result.{Result, ok, err, billing_error, ◌>>◌, fail_if, check_each}
use bms_gui.Accounting.Models.{JournalLine, debit_line, credit_line, PostJournalCommand}
use bms_gui.Billing.Models.{InvoiceLineCommand, CreateInvoiceCommand, SalesPostingAccounts}
use bms_gui.Billing.Tax.{calculate_tax}

-- The checks of one line.
unfoldable pub validate_invoice_line : InvoiceLineCommand → Result (Unit {0})
validate_invoice_line line =
    fail_if (not (truthy line.item_id)) (billing_error "invoice line item_id is required")
    >> (fail_if (leb_ℤ line.quantity (pos 0))
          (billing_error "invoice line quantity must be positive")
        >> fail_if (ltb_ℤ line.unit_price_minor (pos 0))
            (billing_error "invoice line unit price cannot be negative"))

-- `_validate_command`
unfoldable pub validate_command : ℤ → CreateInvoiceCommand → Result (Unit {0})
validate_command tax_rate_basis_points command =
    require_fields billing_error "missing required invoice field(s): " (
      ("invoice_id", command.invoice_id)
      ∷ ("customer_id", command.customer_id)
      ∷ ("period_id", command.period_id)
      ∷ ("timestamp", command.timestamp)
      ∷ ("actor_id", command.actor_id)
      ∷ ("correlation_id", command.correlation_id)
      ∷ ("payment_method", command.payment_method)
      ∷ ("currency", command.currency)
      ∷ [])
    >> (fail_if (is_empty command.lines) (billing_error "invoice must contain at least one line")
        >> (fail_if (ltb_ℤ tax_rate_basis_points (pos 0))
              (billing_error "tax rate cannot be negative")
            >> check_each command.lines validate_invoice_line))

unfoldable pub line_amount : InvoiceLineCommand → ℤ
line_amount line = line.quantity *ℤ line.unit_price_minor

unfoldable pub invoice_subtotal : CreateInvoiceCommand → ℤ
unfolding line_amount
invoice_subtotal command = sum (map line_amount command.lines)

unfoldable pub invoice_movement_id : CreateInvoiceCommand → ℕ → String
invoice_movement_id command index = "mov_" & command.invoice_id & "_" & decimal index

-- The local variables of `create_invoice`.
pub record Sale : Type 0 where
  pub subtotal : ℤ
  pub tax : ℤ
  pub total : ℤ
  pub movement_ids : List String
  pub journal_id : String
  pub cogs_by_line : List ℤ
  pub cogs_total : ℤ

unfoldable pub sale_of : ℤ → CreateInvoiceCommand → List ℤ → Sale
sale_of tax_rate_basis_points command cogs_by_line =
    let subtotal = invoice_subtotal command in
    let tax = calculate_tax subtotal tax_rate_basis_points in
    record {
      subtotal = subtotal;
      tax = tax;
      total = subtotal +ℤ tax;
      movement_ids =
          map (λ (p : ℕ × InvoiceLineCommand). invoice_movement_id command p.0)
            (enumerate 1 command.lines);
      journal_id = "jrn_" & command.invoice_id;
      cogs_by_line = cogs_by_line;
      cogs_total = sum cogs_by_line;
    }

-- The lines of the journal: the sale, the tax if any, and the cost of the goods if any.
unfoldable pub sale_journal_lines :
    SalesPostingAccounts → CreateInvoiceCommand → Sale → List JournalLine
sale_journal_lines accounts command sale =
    let memo = "Invoice " & command.invoice_id in
    (debit_line accounts.cash sale.total command.currency memo
      ∷ credit_line accounts.sales_revenue sale.subtotal command.currency memo
      ∷ [])
    ++ ((if nonzero sale.tax
          then credit_line accounts.output_tax_payable sale.tax command.currency (memo & " tax")
            ∷ []
          else [])
        ++ (if nonzero sale.cogs_total
            then debit_line accounts.cost_of_goods_sold sale.cogs_total command.currency
                (memo & " cost")
              ∷ credit_line accounts.inventory sale.cogs_total command.currency
                  (memo & " inventory relief")
              ∷ []
            else []))

unfoldable pub sale_journal :
    SalesPostingAccounts → CreateInvoiceCommand → Sale → PostJournalCommand
sale_journal accounts command sale = record {
  journal_id = sale.journal_id;
  period_id = command.period_id;
  timestamp = command.timestamp;
  actor_id = command.actor_id;
  source_module = "billing";
  source_document_id = command.invoice_id;
  correlation_id = command.correlation_id;
  description = "Invoice " & command.invoice_id & " sale";
  lines = sale_journal_lines accounts command sale;
}
