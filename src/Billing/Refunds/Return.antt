-- ===== src/Billing/Refunds/Return.antt =====
-- The amounts of a refund and the journal that it posts.
pub mod Balanced
use bms_gui.Prelude.{
  ℕ, suc, String, Bool, not, Option, none, some, List, [], ◌∷◌, ◌++◌, map, is_empty, ℤ, pos, ◌+ℤ◌,
  ◌*ℤ◌, leb_ℤ, ltb_ℤ, nonzero, sum, if◌then◌else◌,
}
use bms_gui.Fields.{◌&◌, truthy, require_fields, enumerate, decimal}
use bms_gui.Result.{Result, ok, err, billing_error, ◌>>◌, fail_if, check_each}
use bms_gui.Accounting.Models.{JournalLine, debit_line, credit_line, PostJournalCommand}
use bms_gui.Billing.Models.{RefundLineCommand, CreateRefundCommand, SalesPostingAccounts}
use bms_gui.Billing.Tax.{calculate_tax}

-- The checks of one line.
unfoldable pub validate_refund_line : RefundLineCommand → Result (Unit {0})
validate_refund_line line =
    fail_if (not (truthy line.item_id)) (billing_error "refund line item_id is required")
    >> (fail_if (leb_ℤ line.quantity (pos 0))
          (billing_error "refund line quantity must be positive")
        >> fail_if (ltb_ℤ line.unit_price_minor (pos 0))
            (billing_error "refund line unit price cannot be negative"))

-- `_validate_refund_command`
unfoldable pub validate_refund_command : ℤ → CreateRefundCommand → Result (Unit {0})
validate_refund_command tax_rate_basis_points command =
    require_fields billing_error "missing required refund field(s): " (
      ("refund_id", command.refund_id)
      ∷ ("original_invoice_id", command.original_invoice_id)
      ∷ ("period_id", command.period_id)
      ∷ ("timestamp", command.timestamp)
      ∷ ("actor_id", command.actor_id)
      ∷ ("correlation_id", command.correlation_id)
      ∷ ("currency", command.currency)
      ∷ ("reason", command.reason)
      ∷ [])
    >> (fail_if (is_empty command.lines) (billing_error "refund must contain at least one line")
        >> (fail_if (ltb_ℤ tax_rate_basis_points (pos 0))
              (billing_error "tax rate cannot be negative")
            >> check_each command.lines validate_refund_line))

unfoldable pub refund_line_amount : RefundLineCommand → ℤ
refund_line_amount line = line.quantity *ℤ line.unit_price_minor

unfoldable pub refund_subtotal : CreateRefundCommand → ℤ
unfolding refund_line_amount
refund_subtotal command = sum (map refund_line_amount command.lines)

unfoldable pub refund_movement_id : CreateRefundCommand → ℕ → String
refund_movement_id command index = "mov_refund_" & command.refund_id & "_" & decimal index

-- The movement ids of the lines that go back to the stock.
unfoldable pub restocked_ids : CreateRefundCommand → ℕ → List RefundLineCommand → List String
restocked_ids command index [] = []
restocked_ids command index (line ∷ lines) =
    let others = restocked_ids command (suc index) lines in
    if line.restock then refund_movement_id command index ∷ others else others

-- The local variables of `create_refund`.
pub record Return : Type 0 where
  pub subtotal : ℤ
  pub tax : ℤ
  pub total : ℤ
  pub movement_ids : List String
  pub journal_id : String
  pub cogs_by_line : List ℤ
  pub cogs_restored : ℤ

unfoldable pub return_of : ℤ → CreateRefundCommand → List ℤ → Return
return_of tax_rate_basis_points command cogs_by_line =
    let subtotal = refund_subtotal command in
    let tax = calculate_tax subtotal tax_rate_basis_points in
    record {
      subtotal = subtotal;
      tax = tax;
      total = subtotal +ℤ tax;
      movement_ids = restocked_ids command 1 command.lines;
      journal_id = "jrn_refund_" & command.refund_id;
      cogs_by_line = cogs_by_line;
      cogs_restored = sum cogs_by_line;
    }

-- The lines of the journal: the return, the tax if any, and the goods that come back if any.
unfoldable pub return_journal_lines :
    SalesPostingAccounts → CreateRefundCommand → Return → List JournalLine
return_journal_lines accounts command return =
    let memo = "Refund " & command.refund_id in
    (debit_line accounts.sales_returns return.subtotal command.currency memo
      ∷ credit_line accounts.cash return.total command.currency memo
      ∷ [])
    ++ ((if nonzero return.tax
          then debit_line accounts.output_tax_payable return.tax command.currency (memo & " tax")
            ∷ []
          else [])
        ++ (if nonzero return.cogs_restored
            then debit_line accounts.inventory return.cogs_restored command.currency
                (memo & " inventory return")
              ∷ credit_line accounts.cost_of_goods_sold return.cogs_restored command.currency
                  (memo & " cost reversal")
              ∷ []
            else []))

unfoldable pub return_journal :
    SalesPostingAccounts → CreateRefundCommand → Return → PostJournalCommand
return_journal accounts command return = record {
  journal_id = return.journal_id;
  period_id = command.period_id;
  timestamp = command.timestamp;
  actor_id = command.actor_id;
  source_module = "billing";
  source_document_id = command.refund_id;
  correlation_id = command.correlation_id;
  description = "Refund " & command.refund_id & " for invoice " & command.original_invoice_id;
  lines = return_journal_lines accounts command return;
}
