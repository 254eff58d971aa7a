-- ===== src/Billing/Invoices/Sale/Balanced.antt =====
-- The journal of an invoice.
use bms_gui.Prelude.{◌≡◌, sym, ◌∙◌, List, ℤ, pos, ◌+ℤ◌, int_laws}
use bms_gui.Accounting.Validation.{debit_total, credit_total}
use bms_gui.Accounting.Validation.Totals.{
  HasTotals, append-HasTotals, pair-HasTotals, optional-credit, optional-pair,
}
use bms_gui.Billing.Models.{CreateInvoiceCommand, SalesPostingAccounts}
use bms_gui.Billing.Invoices.Sale.{Sale, sale_of, sale_journal_lines}

sale_journal_lines-HasTotals :
    (accounts : SalesPostingAccounts) (command : CreateInvoiceCommand) (sale : Sale)
    → HasTotals
        (sale.total +ℤ (pos 0 +ℤ sale.cogs_total))
        (sale.subtotal +ℤ (sale.tax +ℤ sale.cogs_total))
        (sale_journal_lines accounts command sale)
unfolding sale_journal_lines
sale_journal_lines-HasTotals accounts command sale =
    append-HasTotals _ _ _ _ _ _ (pair-HasTotals _ _ _ _ _ _ _)
      (append-HasTotals _ _ _ _ _ _ (optional-credit _ _ _ _) (optional-pair _ _ _ _ _ _))

-- The debits of the journal of an invoice equal its credits, whatever its lines, the rate of the
-- tax and the costs of the goods.
pub sale_journal_lines-balanced :
    (accounts : SalesPostingAccounts) (rate : ℤ) (command : CreateInvoiceCommand) (cogs : List ℤ)
    → let lines = sale_journal_lines accounts command (sale_of rate command cogs) in
      debit_total lines ≡ credit_total lines
unfolding sale_of
sale_journal_lines-balanced accounts rate command cogs =
    let sale = sale_of rate command cogs in
    let h = sale_journal_lines-HasTotals accounts command sale in
    h.debit ∙ omega int_laws ∙ sym h.credit
