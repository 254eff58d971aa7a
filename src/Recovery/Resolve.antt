-- ===== src/Recovery/Resolve.antt =====
-- `resolve_recovery_accounting_adjustment` of src/bms/app/recovery.py, on the store of a
-- data root that is initialized.
pub mod Recorded
use bms_gui.Prelude.{
  String, Bool, true, false, not, ◌&&◌, Option, none, some, List, [], ◌∷◌, str_eq, if◌then◌else◌,
}
use bms_gui.Fields.{◌&◌}
use bms_gui.Json.{Value, Payload, str, bool, int, arr, obj, dict, str_list, get, is_text}
use bms_gui.Result as R
use bms_gui.Result.{Result, ok, err, recovery_error, fail_if}
use bms_gui.Exec.{Exec, pure, reads, lift, ◌>>=◌, ◌>>◌}
use bms_gui.Store.{
  Env, World, reconciliation_records, read_payloads, utc_now, or_else, append_record,
  append_audit_record, append_business_event, append_wal_committed,
}
use bms_gui.Accounting.Models.{PostJournalCommand, JournalResult, baseline_chart_of_accounts}
use bms_gui.Accounting.Periods.{start_accounting}
use bms_gui.Accounting.Posting.{post_journal}
use bms_gui.Auth.Identity.{UserRecord, RoleAssignment}
use bms_gui.Facade.Commands.{validate_post_journal_command_payload}
use bms_gui.Recovery.Startup.{RecoveryEnv}
use bms_gui.Recovery.Pending.{PendingRecoveryTransaction}
use bms_gui.Recovery.Reconcile.{require_arguments, authorize_reconciliation, require_pending}

pub record RecoveryAccountingAdjustmentResult : Type 0 where
  pub reconciliation_id : String
  pub transaction_id : String
  pub correction_journal_id : String
  pub resolved : Bool

-- Whether a record of a transaction is of an adjustment.
abbrev pub is_adjustment : Payload → Bool
is_adjustment payload = is_text (get "resolution_type" payload) "accounting_adjustment"

-- `_reconciliation_record_for_transaction`, over the payloads.
unfoldable pub find_reconciliation : String → List Payload → Option Payload
find_reconciliation transaction_id [] = none
find_reconciliation transaction_id (payload ∷ rest) =
    if is_text (get "transaction_id" payload) transaction_id && not (is_adjustment payload)
    then some payload
    else find_reconciliation transaction_id rest

-- `_has_accounting_adjustment_resolution`, over the payloads.
unfoldable pub has_adjustment : String → List Payload → Bool
has_adjustment transaction_id [] = false
has_adjustment transaction_id (payload ∷ rest) =
    let others = has_adjustment transaction_id rest in
    if is_text (get "transaction_id" payload) transaction_id && is_adjustment payload
    then true
    else others

-- `value is True`
abbrev pub is_true : Option Value → Bool
is_true (some (bool b)) = b
is_true _ = false

-- The checks on the record of the transaction.
unfoldable pub check_reconciliation : String → Payload → Result (Unit {0})
check_reconciliation transaction_id payload =
    R.◌>>◌
      (fail_if (not (is_text (get "decision" payload) "requires_accounting_adjustment")) (
        recovery_error
          ("transaction " & transaction_id & " is not waiting for an accounting adjustment")))
      (fail_if (is_true (get "resolved" payload))
        (recovery_error ("transaction " & transaction_id & " is already resolved")))

-- The checks on the journal.
unfoldable pub check_adjustment_journal : String → String → PostJournalCommand → Result (Unit {0})
check_adjustment_journal transaction_id actor_id command =
    R.◌>>◌
      (fail_if (not (str_eq command.actor_id actor_id))
        (recovery_error "journal actor_id must match the resolving actor_id"))
      (R.◌>>◌
        (fail_if (not (str_eq command.source_module "recovery"))
          (recovery_error "journal source_module must be recovery"))
        (fail_if (not (str_eq command.source_document_id transaction_id))
          (recovery_error "journal source_document_id must match transaction_id")))

-- What is recorded of the adjustment.
unfoldable pub adjustment_payload :
    PendingRecoveryTransaction → JournalResult → String → String → String → String → Payload
adjustment_payload t journal transaction_id actor_id reason created_at = dict (
    ("reconciliation_id", str ("rec_" & transaction_id & "_accounting_adjustment"))
    ∷ ("transaction_id", str t.transaction_id)
    ∷ ("operation", str t.operation)
    ∷ ("correlation_id", str t.correlation_id)
    ∷ ("decision", str "requires_accounting_adjustment")
    ∷ ("reason", str reason)
    ∷ ("actor_id", str actor_id)
    ∷ ("created_at", str created_at)
    ∷ ("resolved", bool true)
    ∷ ("resolution_type", str "accounting_adjustment")
    ∷ ("correction_journal_id", str journal.journal_id)
    ∷ ("correction_debit_total_minor", int journal.debit_total_minor)
    ∷ ("correction_credit_total_minor", int journal.credit_total_minor)
    ∷ ("side_effects", arr (str_list t.side_effects))
    ∷ ("pending_payload", obj t.payload)
    ∷ [])

module _ (env : Env) (users : List UserRecord) (assignments : List RoleAssignment) where
  -- What the records say of the transaction: each function of the source reads the file.
  unfoldable pub check_records : String → World → Result (Unit {0})
  check_records transaction_id w = R.◌>>=◌ (read_payloads env reconciliation_records w) λ recorded.
      elim (find_reconciliation transaction_id recorded) [
        | none ↦
            err (recovery_error ("transaction " & transaction_id & " has no reconciliation record"))
        | some payload ↦ R.◌>>◌ (check_reconciliation transaction_id payload) (
            R.◌>>=◌ (read_payloads env reconciliation_records w) λ again.
              fail_if (has_adjustment transaction_id again) (
                recovery_error (
                  "transaction " & transaction_id
                  & " already has an accounting adjustment resolution")))
      ]

  -- The reads and checks of the stored state.
  unfoldable pub plan_adjustment : String → World → Result PendingRecoveryTransaction
  plan_adjustment transaction_id w =
      R.◌>>=◌ (require_pending env users assignments transaction_id w)
        λ transaction. R.◌>>◌ (check_records transaction_id w) (ok transaction)

  -- The writes after the journal.
  unfoldable pub write_adjustment :
      PendingRecoveryTransaction
      → JournalResult
      → String
      → String
      → String
      → String
      → Exec World RecoveryAccountingAdjustmentResult
  write_adjustment t journal transaction_id actor_id reason created_at = do
    append_record env reconciliation_records "recovery.reconciliation_record" actor_id
        t.correlation_id ("recovery_accounting_adjustment_" & transaction_id)
        (adjustment_payload t journal transaction_id actor_id reason created_at)
        (some ("rec_" & transaction_id & "_accounting_adjustment")) (some created_at)
    append_audit_record env "recovery.accounting_adjustment_resolved" actor_id "wal_transaction"
        t.transaction_id t.correlation_id (some created_at)
        (dict (
          ("operation", str t.operation)
          ∷ ("correction_journal_id", str journal.journal_id)
          ∷ ("reason", str reason)
          ∷ ("side_effects", arr (str_list t.side_effects))
          ∷ []))
        (some ("audit_recovery_accounting_adjustment_" & transaction_id))
    append_business_event env "recovery.reconciliation_recorded.v1" actor_id
        (dict (
          ("reconciliation_id", str ("rec_" & transaction_id & "_accounting_adjustment"))
          ∷ ("transaction_id", str t.transaction_id)
          ∷ ("operation", str t.operation)
          ∷ ("decision", str "requires_accounting_adjustment")
          ∷ ("resolved", bool true)
          ∷ ("correction_journal_id", str journal.journal_id)
          ∷ []))
        (some t.correlation_id) (some created_at)
        (some ("event_recovery_accounting_adjustment_" & transaction_id))
    append_wal_committed env t.transaction_id created_at actor_id t.correlation_id
    pure (record {
      reconciliation_id = "rec_" & transaction_id & "_accounting_adjustment";
      transaction_id = t.transaction_id;
      correction_journal_id = journal.journal_id;
      resolved = true;
    })

  -- `AccountingService(store)` loads the closed periods of the store.
  unfoldable pub resolve_recovery_accounting_adjustment :
      String
      → String
      → String
      → Payload
      → Option String
      → Exec World RecoveryAccountingAdjustmentResult
  resolve_recovery_accounting_adjustment transaction_id actor_id reason journal_payload created_at =
      do
        lift (require_arguments transaction_id actor_id reason)
        reads (authorize_reconciliation env users assignments actor_id)
        transaction ← reads (plan_adjustment transaction_id)
        command ← lift (validate_post_journal_command_payload journal_payload)
        lift (check_adjustment_journal transaction_id actor_id command)
        start_accounting env []
        journal ← post_journal env baseline_chart_of_accounts command
        time ← or_else env created_at (utc_now env)
        write_adjustment transaction journal transaction_id actor_id reason time
