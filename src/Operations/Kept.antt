-- ===== src/Operations/Kept.antt =====
-- What every call of the services keeps: the books.
use bms_gui.Prelude.{String, false, List, ℤ}
use bms_gui.Json.{Payload}
use bms_gui.Dict.{Dict}
use bms_gui.Exec.Keeps.{Keeps, keeps_rules}
use bms_gui.Store.{FilePath, stock_movements, journal_entries, Env, World}
use bms_gui.Store.Frame.{OnTable, Apart, store_keeps}
use bms_gui.Accounting.Models.{baseline_chart_of_accounts, Account, PostJournalCommand}
use bms_gui.Accounting.Periods.Closed.{close_period-Keeps}
use bms_gui.Accounting.Port.{accounting_service}
use bms_gui.Accounting.Posting.{post_journal}
use bms_gui.Accounting.Posting.Balanced.{Entries, post_journal-Entries}
use bms_gui.Accounting.Posting.Frame.{post_journal-Keeps}
use bms_gui.Inventory.Models.{Item, StockMovementCommand}
use bms_gui.Inventory.Items.{register_item, write_item}
use bms_gui.Inventory.Movements.{commit_movement, write_movement}
use bms_gui.Inventory.Movements.NonNegative.{Stocked, commit_movement-Stocked}
use bms_gui.Inventory.Port.{inventory_service}
use bms_gui.Billing.Models.{SalesPostingAccounts}
use bms_gui.Billing.Kept.{NotBilling, create_invoice-Keeps, create_refund-Keeps}
use bms_gui.UseCases.{
  InventoryPostingAccounts, commit_stock_movement, post_movement, close_reconciled_period,
}
use bms_gui.Recovery.Startup.{RecoveryEnv}
use bms_gui.Recovery.Kept.{
  NotRecovery, start_accounting-Keeps, recover_store-Keeps, reconcile_recovery_transaction-Keeps,
  resolve_recovery_accounting_adjustment-Keeps,
}
use bms_gui.Operations.Calls.{
  Operation, post, register, move, move_and_post, sell, refund, close, reconcile_and_close, restart,
  recover_storage, reconcile_transaction, resolve_adjustment, Books, after,
}

module _ (env : Env) (core : RecoveryEnv) (accounts : Dict String Account) (tax_rate : ℤ)
    (sales : SalesPostingAccounts) (stock : InventoryPostingAccounts) where
  entries_apart : NotBilling journal_entries
  entries_apart = record {
    not_wal = tt;
    not_audit = tt;
    not_events = tt;
    not_invoices = tt;
    not_invoice_lines = tt;
    not_refunds = tt;
    not_refund_lines = tt;
  }

  movements_apart : NotBilling stock_movements
  movements_apart = record {
    not_wal = tt;
    not_audit = tt;
    not_events = tt;
    not_invoices = tt;
    not_invoice_lines = tt;
    not_refunds = tt;
    not_refund_lines = tt;
  }

  entries_unrecovered : NotRecovery journal_entries
  entries_unrecovered = record {
    not_wal = tt;
    not_audit = tt;
    not_events = tt;
    not_reconciliation = tt;
  }

  movements_unrecovered : NotRecovery stock_movements
  movements_unrecovered = record {
    not_wal = tt;
    not_audit = tt;
    not_events = tt;
    not_reconciliation = tt;
  }

  posts-Stocked :
      (chart : Dict String Account) (command : PostJournalCommand)
      → Keeps Stocked (post_journal env chart command)
  posts-Stocked chart command =
      post_journal-Keeps env chart command
        (record { not_wal = tt; not_entries = tt; not_lines = tt; not_audit = tt; not_events = tt })

  moves-Entries :
      (command : StockMovementCommand) → Keeps Entries (commit_movement env false command)
  unfolding commit_movement write_movement
  moves-Entries command = search (store_keeps, tt) depth 30

  register-Keeps :
      {T : List Payload → Type 0} (path : FilePath) (item : Item)
      (actor_id timestamp correlation_id : String)
      → NotBilling path
      → Apart bms_gui.Store.items path
      → Keeps (OnTable path T) (register_item env item actor_id timestamp correlation_id)
  unfolding register_item write_item
  register-Keeps path item actor_id timestamp correlation_id b a =
      search (store_keeps, a, b.not_wal, b.not_audit, b.not_events) depth 30

  move_and_post-Keeps :
      {path : FilePath} {T : List Payload → Type 0} (command : StockMovementCommand)
      → ((c : PostJournalCommand) → Keeps (OnTable path T) (post_journal env accounts c))
      → ((c : StockMovementCommand) → Keeps (OnTable path T) (commit_movement env false c))
      → Keeps (OnTable path T) (
          commit_stock_movement
            (inventory_service env false)
            (accounting_service env accounts)
            stock
            command)
  unfolding commit_stock_movement post_movement
  move_and_post-Keeps command posts moves = search (keeps_rules, posts, moves) depth 20

  pub after-Books :
      (operation : Operation) (w : World)
      → Books w
      → Books (after env core accounts tax_rate sales stock operation w)
  unfolding close_reconciled_period
  after-Books (post command) w b = record {
    balanced = (post_journal-Entries env accounts command).at w b.balanced;
    stocked = (posts-Stocked accounts command).at w b.stocked;
  }
  after-Books (register item actor_id timestamp correlation_id) w b = record {
    balanced =
        (register-Keeps _ item actor_id timestamp correlation_id entries_apart tt).at w b.balanced;
    stocked =
        (register-Keeps _ item actor_id timestamp correlation_id movements_apart tt).at w b.stocked;
  }
  after-Books (move command) w b = record {
    balanced = (moves-Entries command).at w b.balanced;
    stocked = (commit_movement-Stocked env command).at w b.stocked;
  }
  after-Books (move_and_post command) w b = record {
    balanced =
        (move_and_post-Keeps command (post_journal-Entries env accounts) moves-Entries).at w
          b.balanced;
    stocked =
        (move_and_post-Keeps command (posts-Stocked accounts) (commit_movement-Stocked env)).at w
          b.stocked;
  }
  after-Books (sell command) w b = record {
    balanced =
        (create_invoice-Keeps env _ _ tax_rate sales entries_apart
            (post_journal-Entries env accounts) moves-Entries command).at
          w b.balanced;
    stocked =
        (create_invoice-Keeps env _ _ tax_rate sales movements_apart (posts-Stocked accounts)
            (commit_movement-Stocked env) command).at
          w b.stocked;
  }
  after-Books (refund command) w b = record {
    balanced =
        (create_refund-Keeps env _ _ tax_rate sales entries_apart
            (post_journal-Entries env accounts) moves-Entries command).at
          w b.balanced;
    stocked =
        (create_refund-Keeps env _ _ tax_rate sales movements_apart (posts-Stocked accounts)
            (commit_movement-Stocked env) command).at
          w b.stocked;
  }
  after-Books (close period_id actor_id closed_at correlation_id) w b = record {
    balanced =
        (close_period-Keeps env period_id actor_id closed_at correlation_id tt tt tt tt).at w
          b.balanced;
    stocked =
        (close_period-Keeps env period_id actor_id closed_at correlation_id tt tt tt tt).at w
          b.stocked;
  }
  after-Books (reconcile_and_close period_id actor_id closed_at correlation_id) w b = record {
    balanced = (reconcile-Keeps tt tt tt tt).at w b.balanced;
    stocked = (reconcile-Keeps tt tt tt tt).at w b.stocked;
  }
    where
      reconcile-Keeps :
          {path : FilePath} {T : List Payload → Type 0}
          → Apart bms_gui.Store.wal path
          → Apart bms_gui.Store.periods path
          → Apart bms_gui.Store.audit_records path
          → Apart bms_gui.Store.business_events path
          → Keeps
              (OnTable path T)
              (close_reconciled_period env period_id actor_id closed_at correlation_id)
      reconcile-Keeps a b c d = search (keeps_rules, close_period-Keeps, a, b, c, d) depth 20
  after-Books (restart given) w b = record {
    balanced = (start_accounting-Keeps env entries_unrecovered given).at w b.balanced;
    stocked = (start_accounting-Keeps env movements_unrecovered given).at w b.stocked;
  }
  after-Books (recover_storage snapshot) w b = record {
    balanced = (recover_store-Keeps env entries_unrecovered core snapshot).at w b.balanced;
    stocked = (recover_store-Keeps env movements_unrecovered core snapshot).at w b.stocked;
  }
  after-Books (reconcile_transaction users assignments transaction_id decision actor_id reason time)
        w b =
      record {
        balanced =
            (reconcile_recovery_transaction-Keeps env entries_unrecovered users assignments
                transaction_id decision actor_id reason time).at
              w b.balanced;
        stocked =
            (reconcile_recovery_transaction-Keeps env movements_unrecovered users assignments
                transaction_id decision actor_id reason time).at
              w b.stocked;
      }
  after-Books (resolve_adjustment users assignments transaction_id actor_id reason journal time) w
        b =
      record {
        balanced =
            (resolve_recovery_accounting_adjustment-Keeps env entries_unrecovered users assignments
                transaction_id actor_id reason journal time
                (post_journal-Entries env baseline_chart_of_accounts)).at
              w b.balanced;
        stocked =
            (resolve_recovery_accounting_adjustment-Keeps env movements_unrecovered users
                assignments transaction_id actor_id reason journal time
                (posts-Stocked baseline_chart_of_accounts)).at
              w b.stocked;
      }
