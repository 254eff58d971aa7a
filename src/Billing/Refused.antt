-- ===== src/Billing/Refused.antt =====
-- Invoices and refunds for a closed period.
use bms_gui.Prelude.{true-false, ◌≡◌, sym, ◌∙◌, true, false, ℤ, inl, inr}
use bms_gui.Result as R
use bms_gui.Result.{Error, Result, ok, err, then-ok, guard-ok, >>=-eq-ok, Result-cases}
use bms_gui.Exec.Outcome.{reads-err}
use bms_gui.Store.{Env, World, invoices, refunds, read_payloads}
use bms_gui.Accounting.Port.{AccountingPort}
use bms_gui.Inventory.Port.{InventoryPort}
use bms_gui.Billing.Models.{CreateInvoiceCommand, CreateRefundCommand, SalesPostingAccounts}
use bms_gui.Billing.Payloads.{reject_duplicate_invoice, reject_duplicate_refund}
use bms_gui.Billing.Invoices.Sale.{Sale, validate_command}
use bms_gui.Billing.Invoices.Writing.{plan_invoice, create_invoice}
use bms_gui.Billing.Refunds.Return.{Return, validate_refund_command}
use bms_gui.Billing.Refunds.Writing.{require_invoice, plan_refund, create_refund}

module _ (env : Env) (inventory : InventoryPort) (accounting : AccountingPort) (tax_rate : ℤ)
    (posting_accounts : SalesPostingAccounts) where
  plan_invoice-open :
      (command : CreateInvoiceCommand) (w : World) {sale : Sale}
      → plan_invoice env inventory accounting tax_rate posting_accounts command w ≡ ok sale
      → accounting.is_period_closed command.period_id w ≡ false
  unfolding plan_invoice
  plan_invoice-open command w h =
      let (_, h1) = then-ok (validate_command tax_rate command) _ h in
      let (_, h2) =
        then-ok
          (R.◌>>=◌ (read_payloads env invoices w) (reject_duplicate_invoice command.invoice_id)) _
          h1 in
      (guard-ok (accounting.is_period_closed command.period_id w) _ _ h2).0

  -- An invoice for a period that the port of accounting says is closed is refused with an error,
  -- and nothing is written.
  pub create_invoice-closed :
      (command : CreateInvoiceCommand) (w : World)
      → accounting.is_period_closed command.period_id w ≡ true
      → (e : Error) × (create_invoice env inventory accounting tax_rate posting_accounts command w
          ≡ (err e, w))
  unfolding create_invoice
  create_invoice-closed command w h =
      elim (Result-cases
        (plan_invoice env inventory accounting tax_rate posting_accounts command w)) [
          | inl (sale, planned) ↦ absurd (true-false (sym h ∙ plan_invoice-open command w planned))
          | inr (e, failed) ↦ (
            e,
            reads-err (plan_invoice env inventory accounting tax_rate posting_accounts command) _ w
                failed,
          )
        ]

  plan_refund-open :
      (command : CreateRefundCommand) (w : World) {back : Return}
      → plan_refund env inventory accounting tax_rate posting_accounts command w ≡ ok back
      → accounting.is_period_closed command.period_id w ≡ false
  unfolding plan_refund
  plan_refund-open command w h =
      let (_, h1) = then-ok (validate_refund_command tax_rate command) _ h in
      let (_, h2) =
        then-ok (R.◌>>=◌ (read_payloads env refunds w) (reject_duplicate_refund command.refund_id))
          _ h1 in
      let (_, _, h3) =
        >>=-eq-ok (require_invoice env inventory accounting tax_rate posting_accounts command w) _
          h2 in
      (guard-ok (accounting.is_period_closed command.period_id w) _ _ h3).0

  -- A refund for a period that the port of accounting says is closed is refused with an error, and
  -- nothing is written.
  pub create_refund-closed :
      (command : CreateRefundCommand) (w : World)
      → accounting.is_period_closed command.period_id w ≡ true
      → (e : Error) × (create_refund env inventory accounting tax_rate posting_accounts command w
          ≡ (err e, w))
  unfolding create_refund
  create_refund-closed command w h =
      elim (Result-cases
        (plan_refund env inventory accounting tax_rate posting_accounts command w)) [
          | inl (back, planned) ↦ absurd (true-false (sym h ∙ plan_refund-open command w planned))
          | inr (e, failed) ↦ (
            e,
            reads-err (plan_refund env inventory accounting tax_rate posting_accounts command) _ w
                failed,
          )
        ]
