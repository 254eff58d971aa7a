-- ===== src/Billing/Kept.antt =====
-- What `create_invoice` and `create_refund` keep: every fact about a file that billing does not
-- write itself and that the operations of the two ports keep.
use bms_gui.Prelude.{List, ℕ, ℤ}
use bms_gui.Json.{Payload}
use bms_gui.Exec.Keeps.{Keeps, keeps_rules}
use bms_gui.Store.{
  FilePath, wal, business_events, audit_records, invoices, invoice_lines, refunds, refund_lines,
  Env,
}
use bms_gui.Store.Frame.{OnTable, Apart, store_keeps}
use bms_gui.Accounting.Models.{PostJournalCommand}
use bms_gui.Accounting.Port.{AccountingPort}
use bms_gui.Inventory.Models.{StockMovementCommand}
use bms_gui.Inventory.Port.{InventoryPort}
use bms_gui.Billing.Models.{
  InvoiceLineCommand, CreateInvoiceCommand, CreateRefundCommand, SalesPostingAccounts,
}
use bms_gui.Billing.Invoices.Sale.{Sale}
use bms_gui.Billing.Invoices.Writing.{
  CostedLine, move_stock, append_invoice, append_invoice_line, append_invoice_audit,
  append_invoice_event, write_invoice, create_invoice,
}
use bms_gui.Billing.Refunds.Return.{Return}
use bms_gui.Billing.Refunds.Writing.{
  ReturnedLine, restock_line, append_refund, append_refund_line, append_refund_audit,
  append_refund_event, write_refund, create_refund,
}

-- A file that billing does not write to itself.
pub record NotBilling (path : FilePath) : Type 0 where
  pub not_wal : Apart wal path
  pub not_audit : Apart audit_records path
  pub not_events : Apart business_events path
  pub not_invoices : Apart invoices path
  pub not_invoice_lines : Apart invoice_lines path
  pub not_refunds : Apart refunds path
  pub not_refund_lines : Apart refund_lines path

module _ (env : Env) (inventory : InventoryPort) (accounting : AccountingPort) (tax_rate : ℤ)
    (posting_accounts : SalesPostingAccounts) {path : FilePath} {T : List Payload → Type 0}
    (apart : NotBilling path)
    (posts : (command : PostJournalCommand)
      → Keeps (OnTable path T) (accounting.post_journal command))
    (moves : (command : StockMovementCommand)
      → Keeps (OnTable path T) (inventory.commit_movement command)) where
  move_stock-Keeps :
      (command : CreateInvoiceCommand) (line : ℕ × InvoiceLineCommand)
      → Keeps
          (OnTable path T)
          (move_stock env inventory accounting tax_rate posting_accounts command line)
  unfolding move_stock
  move_stock-Keeps command line = search (keeps_rules, moves)

  append_invoice_line-Keeps :
      (command : CreateInvoiceCommand) (line : CostedLine)
      → Keeps
          (OnTable path T)
          (append_invoice_line env inventory accounting tax_rate posting_accounts command line)
  unfolding append_invoice_line
  append_invoice_line-Keeps command line = search (store_keeps, apart.not_invoice_lines)

  write_invoice-Keeps :
      (command : CreateInvoiceCommand) (sale : Sale)
      → Keeps
          (OnTable path T)
          (write_invoice env inventory accounting tax_rate posting_accounts command sale)
  unfolding write_invoice append_invoice append_invoice_audit append_invoice_event
  write_invoice-Keeps command sale =
      search
        (
          store_keeps, posts, move_stock-Keeps, append_invoice_line-Keeps, apart.not_wal,
          apart.not_audit, apart.not_events, apart.not_invoices,
        )
        depth 40

  pub create_invoice-Keeps :
      (command : CreateInvoiceCommand)
      → Keeps
          (OnTable path T)
          (create_invoice env inventory accounting tax_rate posting_accounts command)
  unfolding create_invoice
  create_invoice-Keeps command = search (keeps_rules, write_invoice-Keeps)

  restock_line-Keeps :
      (command : CreateRefundCommand) (line : ReturnedLine)
      → Keeps
          (OnTable path T)
          (restock_line env inventory accounting tax_rate posting_accounts command line)
  unfolding restock_line
  restock_line-Keeps command line = search (keeps_rules, moves)

  append_refund_line-Keeps :
      (command : CreateRefundCommand) (line : ReturnedLine)
      → Keeps
          (OnTable path T)
          (append_refund_line env inventory accounting tax_rate posting_accounts command line)
  unfolding append_refund_line
  append_refund_line-Keeps command line = search (store_keeps, apart.not_refund_lines)

  write_refund-Keeps :
      (command : CreateRefundCommand) (back : Return)
      → Keeps
          (OnTable path T)
          (write_refund env inventory accounting tax_rate posting_accounts command back)
  unfolding write_refund append_refund append_refund_audit append_refund_event
  write_refund-Keeps command back =
      search
        (
          store_keeps, posts, restock_line-Keeps, append_refund_line-Keeps, apart.not_wal,
          apart.not_audit, apart.not_events, apart.not_refunds,
        )
        depth 40

  pub create_refund-Keeps :
      (command : CreateRefundCommand)
      → Keeps
          (OnTable path T)
          (create_refund env inventory accounting tax_rate posting_accounts command)
  unfolding create_refund
  create_refund-Keeps command = search (keeps_rules, write_refund-Keeps)
