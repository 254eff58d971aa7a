-- ===== src/Billing/Refunds/Return/Balanced.antt =====
-- The journal of a refund.
use bms_gui.Prelude.{◌≡◌, sym, ◌∙◌, List, ℤ, pos, ◌+ℤ◌, int_laws}
use bms_gui.Accounting.Validation.{debit_total, credit_total}
use bms_gui.Accounting.Validation.Totals.{
  HasTotals, append-HasTotals, pair-HasTotals, optional-debit, optional-pair,
}
use bms_gui.Billing.Models.{CreateRefundCommand, SalesPostingAccounts}
use bms_gui.Billing.Refunds.Return.{Return, return_of, return_journal_lines}

return_journal_lines-HasTotals :
    (accounts : SalesPostingAccounts) (command : CreateRefundCommand) (back : Return)
    → HasTotals
        (back.subtotal +ℤ (back.tax +ℤ back.cogs_restored))
        (back.total +ℤ (pos 0 +ℤ back.cogs_restored))
        (return_journal_lines accounts command back)
unfolding return_journal_lines
return_journal_lines-HasTotals accounts command back =
    append-HasTotals _ _ _ _ _ _ (pair-HasTotals _ _ _ _ _ _ _)
      (append-HasTotals _ _ _ _ _ _ (optional-debit _ _ _ _) (optional-pair _ _ _ _ _ _))

-- The debits of the journal of a refund equal its credits, whatever its lines, the rate of the tax
-- and the costs of the goods.
pub return_journal_lines-balanced :
    (accounts : SalesPostingAccounts) (rate : ℤ) (command : CreateRefundCommand) (cogs : List ℤ)
    → let lines = return_journal_lines accounts command (return_of rate command cogs) in
      debit_total lines ≡ credit_total lines
unfolding return_of
return_journal_lines-balanced accounts rate command cogs =
    let back = return_of rate command cogs in
    let h = return_journal_lines-HasTotals accounts command back in
    h.debit ∙ omega int_laws ∙ sym h.credit
