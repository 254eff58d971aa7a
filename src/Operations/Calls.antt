-- ===== src/Operations/Calls.antt =====
-- The calls of the services of src/bms/domain and of recovery over one store.
use bms_gui.Prelude.{String, false, Option, List, ℤ}
use bms_gui.Json.{Payload}
use bms_gui.Dict.{Dict}
use bms_gui.Store.{Env, World}
use bms_gui.Accounting.Models.{Account, PostJournalCommand}
use bms_gui.Accounting.Periods.{start_accounting, close_period}
use bms_gui.Accounting.Port.{accounting_service}
use bms_gui.Accounting.Posting.{post_journal}
use bms_gui.Accounting.Posting.Balanced.{Entries}
use bms_gui.Inventory.Models.{Item, StockMovementCommand}
use bms_gui.Inventory.Items.{register_item}
use bms_gui.Inventory.Movements.{commit_movement}
use bms_gui.Inventory.Movements.NonNegative.{Stocked}
use bms_gui.Inventory.Port.{inventory_service}
use bms_gui.Billing.Models.{CreateInvoiceCommand, CreateRefundCommand, SalesPostingAccounts}
use bms_gui.Billing.Invoices.Writing.{create_invoice}
use bms_gui.Billing.Refunds.Writing.{create_refund}
use bms_gui.UseCases.{InventoryPostingAccounts, commit_stock_movement, close_reconciled_period}
use bms_gui.Auth.Identity.{UserRecord, RoleAssignment}
use bms_gui.Recovery.Startup.{RecoveryEnv}
use bms_gui.Recovery.Automatic.{recover_store}
use bms_gui.Recovery.Reconcile.{reconcile_recovery_transaction}
use bms_gui.Recovery.Resolve.{resolve_recovery_accounting_adjustment}

-- The calls of the services.
pub data Operation : Type 0 where
  post : PostJournalCommand → Operation
  register : Item → String → String → String → Operation
  move : StockMovementCommand → Operation
  move_and_post : StockMovementCommand → Operation
  sell : CreateInvoiceCommand → Operation
  refund : CreateRefundCommand → Operation
  close : String → String → Option String → Option String → Operation
  reconcile_and_close : String → String → Option String → Option String → Operation
  -- A new service, which loads the closed periods.
  restart : List String → Operation
  recover_storage : Option String → Operation
  -- With the two documents of the identities.
  reconcile_transaction :
      List UserRecord
      → List RoleAssignment
      → String
      → String
      → String
      → String
      → Option String
      → Operation
  resolve_adjustment :
      List UserRecord
      → List RoleAssignment
      → String
      → String
      → String
      → Payload
      → Option String
      → Operation

-- The books: every entry is balanced, and no item has a negative stock.
pub record Books (w : World) : Type 0 where
  pub balanced : Entries w
  pub stocked : Stocked w

module _ (env : Env) (core : RecoveryEnv) (accounts : Dict String Account) (tax_rate : ℤ)
    (sales : SalesPostingAccounts) (stock : InventoryPostingAccounts) where
  -- The state after a call, whether it returned or raised.
  abbrev pub after : Operation → World → World
  after (post command) w = (post_journal env accounts command w).1
  after (register item actor_id timestamp correlation_id) w =
      (register_item env item actor_id timestamp correlation_id w).1
  after (move command) w = (commit_movement env false command w).1
  after (move_and_post command) w =
      (commit_stock_movement (inventory_service env false) (accounting_service env accounts) stock
        command w).1
  after (sell command) w =
      (create_invoice env (inventory_service env false) (accounting_service env accounts) tax_rate
        sales command w).1
  after (refund command) w =
      (create_refund env (inventory_service env false) (accounting_service env accounts) tax_rate
        sales command w).1
  after (close period_id actor_id closed_at correlation_id) w =
      (close_period env period_id actor_id closed_at correlation_id w).1
  after (reconcile_and_close period_id actor_id closed_at correlation_id) w =
      (close_reconciled_period env period_id actor_id closed_at correlation_id w).1
  after (restart given) w = (start_accounting env given w).1
  after (recover_storage snapshot) w = (recover_store env core snapshot w).1
  after (reconcile_transaction users assignments transaction_id decision actor_id reason time) w =
      (reconcile_recovery_transaction env users assignments transaction_id decision actor_id reason
        time w).1
  after (resolve_adjustment users assignments transaction_id actor_id reason journal time) w =
      (resolve_recovery_accounting_adjustment env users assignments transaction_id actor_id reason
        journal time w).1
