-- ===== src/Recovery/Kept.antt =====
-- What recovery leaves alone.
use bms_gui.Prelude.{
  String, ◌≡◌, true, false, Bool-cases, inl, inr, Option, List, [], if◌then◌else◌,
}
use bms_gui.Json.{Payload}
use bms_gui.Exec.Keeps.{Keeps, keeps_rules}
use bms_gui.Store.{
  FilePath, wal, business_events, audit_records, reconciliation_records, Env, World,
}
use bms_gui.Store.Frame.{OnTable, Apart, Apart-false, store_keeps}
use bms_gui.Accounting.Models.{PostJournalCommand, baseline_chart_of_accounts}
use bms_gui.Accounting.Periods.{start_accounting}
use bms_gui.Accounting.Posting.{post_journal}
use bms_gui.Auth.Identity.{UserRecord, RoleAssignment}
use bms_gui.Recovery.Startup.{
  RecoveryEnv, StartupHealth, StartupState, healthy, recovery_required, protected_mode,
  recover_wal_startup,
}
use bms_gui.Recovery.Automatic.{
  recover_healthy, recover_unfinished, recover_by_state, recover_store,
}
use bms_gui.Recovery.Pending.{PendingRecoveryTransaction}
use bms_gui.Recovery.Reconcile.{commit_if, write_reconciliation, reconcile_recovery_transaction}
use bms_gui.Recovery.Resolve.{write_adjustment, resolve_recovery_accounting_adjustment}

-- A file that recovery does not write to itself.
pub record NotRecovery (path : FilePath) : Type 0 where
  pub not_wal : Apart wal path
  pub not_audit : Apart audit_records path
  pub not_events : Apart business_events path
  pub not_reconciliation : Apart reconciliation_records path

module _ (env : Env) {path : FilePath} {T : List Payload → Type 0} (apart : NotRecovery path) where
  pub start_accounting-Keeps :
      (given : List String) → Keeps (OnTable path T) (start_accounting env given)
  unfolding start_accounting bms_gui.Exec.modify
  start_accounting-Keeps given = search (keeps_rules, modify-Keeps)
    where
      modify-Keeps :
          (f : World → List String)
          → Keeps
              (OnTable path T)
              (bms_gui.Exec.modify (λ (w : World). record w { closed_periods = f w }))
      modify-Keeps f = record { at = λ w h. record { holds = h.holds } }

  module _ (users : List UserRecord) (assignments : List RoleAssignment) where
    commit_if-Keeps :
        (resolved : bms_gui.Prelude.Bool) (t : PendingRecoveryTransaction)
        (created_at actor_id : String)
        → Keeps (OnTable path T) (commit_if env users assignments resolved t created_at actor_id)
    unfolding commit_if
    commit_if-Keeps resolved t created_at actor_id = search (store_keeps, apart.not_wal)

    pub reconcile_recovery_transaction-Keeps :
        (transaction_id decision actor_id reason : String) (created_at : Option String)
        → Keeps (OnTable path T) (
            reconcile_recovery_transaction env users assignments transaction_id decision actor_id
              reason created_at)
    unfolding reconcile_recovery_transaction write_reconciliation
    reconcile_recovery_transaction-Keeps transaction_id decision actor_id reason created_at =
        search
          (
            store_keeps, commit_if-Keeps, apart.not_audit, apart.not_events,
            apart.not_reconciliation,
          )
          depth 30

    pub resolve_recovery_accounting_adjustment-Keeps :
        (transaction_id actor_id reason : String) (journal_payload : Payload)
        (created_at : Option String)
        → ((command : PostJournalCommand)
            → Keeps (OnTable path T) (post_journal env baseline_chart_of_accounts command))
        → Keeps (OnTable path T) (
            resolve_recovery_accounting_adjustment env users assignments transaction_id actor_id
              reason journal_payload created_at)
    unfolding resolve_recovery_accounting_adjustment write_adjustment
    resolve_recovery_accounting_adjustment-Keeps transaction_id actor_id reason journal_payload
          created_at posts =
        search
          (
            store_keeps, start_accounting-Keeps, posts, apart.not_wal, apart.not_audit,
            apart.not_events, apart.not_reconciliation,
          )
          depth 30

  module _ (core : RecoveryEnv) where
    recover_wal_startup-Keeps :
        (snapshot : Option String) → Keeps (OnTable path T) (recover_wal_startup env core snapshot)
    unfolding recover_wal_startup
    recover_wal_startup-Keeps snapshot = record {
      at = λ w h. record { holds = rw (Apart-false wal path apart.not_wal) h.holds };
    }

    recover_by_state-Keeps :
        (snapshot : Option String) (before : StartupHealth) (state : StartupState)
        → Keeps (OnTable path T) (recover_by_state env core snapshot before state)
    unfolding recover_by_state recover_healthy recover_unfinished
    recover_by_state-Keeps snapshot before healthy =
        search (keeps_rules, recover_wal_startup-Keeps) depth 20
    recover_by_state-Keeps snapshot before recovery_required =
        search (keeps_rules, recover_wal_startup-Keeps) depth 20
    recover_by_state-Keeps snapshot before protected_mode = search keeps_rules

    pub recover_store-Keeps :
        (snapshot : Option String) → Keeps (OnTable path T) (recover_store env core snapshot)
    unfolding recover_store
    recover_store-Keeps snapshot = search (keeps_rules, recover_by_state-Keeps)
