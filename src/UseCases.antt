-- ===== src/UseCases.antt =====
-- src/bms/app/use_cases.py: the operations of the application that join several services.
pub mod Movements
use Prim.Native.String.{count}
use bms_gui.Prelude.{
  String, Bool, not, Option, none, some, List, [], ◌∷◌, ℤ, pos, abs, nonzero, ltb, ltb_ℤ,
  if◌then◌else◌,
}
use bms_gui.Fields.{◌&◌, truthy, take_text, join}
use bms_gui.Result as R
use bms_gui.Result.{Result, ok, err, value_error, period_close_error, fail_if}
use bms_gui.Exec.{Exec, pure, reads, lift, raise_if, gets, ◌>>=◌, ◌>>◌}
use bms_gui.Store.{Env, World}
use bms_gui.Accounting.Models.{JournalLine, PostJournalCommand, debit_line, credit_line}
use bms_gui.Accounting.Periods.{close_period}
use bms_gui.Accounting.Port.{AccountingPort}
use bms_gui.Inventory.Models.{StockMovementCommand, StockMovementResult}
use bms_gui.Inventory.Port.{InventoryPort}
use bms_gui.Reconciliation.{
  ReconciliationCheck, ReconciliationReport, all_passed, get_reconciliation_report,
}

pub record InventoryPostingAccounts : Type 0 where
  pub inventory : String
  pub owner_equity : String
  pub inventory_adjustment_expense : String

-- The defaults.
abbrev pub inventory_posting_accounts : InventoryPostingAccounts
inventory_posting_accounts = record {
  inventory = "1200";
  owner_equity = "3000";
  inventory_adjustment_expense = "5100";
}

-- `_period_id_from_timestamp`
unfoldable pub period_id_from_timestamp : String → Result String
unfolding take_text
period_id_from_timestamp timestamp =
    R.◌>>◌
      (fail_if (ltb (count timestamp) 7)
        (value_error "stock movement timestamp cannot be converted to an accounting period"))
      (ok ("FY" & take_text 7 timestamp))

-- `command.period_id or _period_id_from_timestamp(command.timestamp)`
unfoldable pub period_of : StockMovementCommand → Result String
unfolding period_id_from_timestamp
period_of command =
    if truthy command.period_id
    then ok command.period_id
    else period_id_from_timestamp command.timestamp

-- `_journal_lines`; the currency and the memo are the defaults of `JournalLine`.
unfoldable pub movement_journal_lines :
    InventoryPostingAccounts → StockMovementResult → List JournalLine
movement_journal_lines accounts result =
    let value = abs result.value_delta_minor in
    if ltb_ℤ (pos 0) result.value_delta_minor
    then debit_line accounts.inventory result.value_delta_minor "INR" ""
      ∷ credit_line accounts.owner_equity result.value_delta_minor "INR" ""
      ∷ []
    else debit_line accounts.inventory_adjustment_expense value "INR" ""
      ∷ credit_line accounts.inventory value "INR" ""
      ∷ []

unfoldable pub movement_journal :
    InventoryPostingAccounts
    → StockMovementCommand
    → String
    → StockMovementResult
    → PostJournalCommand
movement_journal accounts command period_id result = record {
  journal_id = "jrn_inventory_" & command.movement_id;
  period_id = period_id;
  timestamp = command.timestamp;
  actor_id = command.actor_id;
  source_module = "inventory";
  source_document_id = command.source_document_id;
  correlation_id = command.correlation_id;
  description = "Inventory movement " & command.movement_id;
  lines = movement_journal_lines accounts result;
}

-- `CommitStockMovementUseCase.execute`
module _ (inventory : InventoryPort) (accounting : AccountingPort)
    (posting_accounts : InventoryPostingAccounts) where
  -- The journal of a movement that changed the value.
  unfoldable pub post_movement :
      StockMovementCommand → String → StockMovementResult → Exec World (Unit {0})
  post_movement command period_id result =
      if nonzero result.value_delta_minor
      then (do
        accounting.post_journal (movement_journal posting_accounts command period_id result)
        pure tt)
      else pure tt

  unfoldable pub commit_stock_movement : StockMovementCommand → Exec World StockMovementResult
  commit_stock_movement command = do
    period_id ← lift (period_of command)
    closed ← gets (accounting.is_period_closed period_id)
    raise_if closed (value_error ("period " & period_id & " is closed"))
    result ← inventory.commit_movement command
    post_movement command period_id result
    pure result

-- `check.name for check in report.checks if not check.passed`
abbrev pub failed_names : List ReconciliationCheck → List String
failed_names [] = []
failed_names (check ∷ checks) =
    let others = failed_names checks in if check.passed then others else check.name ∷ others

-- `ClosePeriodUseCase.execute`
module _ (env : Env) where
  unfoldable pub close_reconciled_period :
      String → String → Option String → Option String → Exec World (Unit {0})
  close_reconciled_period period_id actor_id closed_at correlation_id = do
    report ← reads (get_reconciliation_report env period_id)
    raise_if (not (all_passed report.checks)) (
        period_close_error (
          "period "
          & period_id
          & " cannot close; reconciliation failed: "
          & join ", " (failed_names report.checks)))
    close_period env period_id actor_id closed_at correlation_id
