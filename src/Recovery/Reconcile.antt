-- ===== src/Recovery/Reconcile.antt =====
-- `reconcile_recovery_transaction` of src/bms/app/recovery.py, on the store of a
-- data root that is initialized.
pub mod Recorded
use bms_gui.Prelude.{
  String, Bool, true, false, not, ◌||◌, Option, none, some, List, [], ◌∷◌, str_eq, if◌then◌else◌,
}
use bms_gui.Fields.{◌&◌, truthy}
use bms_gui.Json.{Payload, str, bool, arr, obj, dict, str_list}
use bms_gui.Result as R
use bms_gui.Result.{Result, ok, err, recovery_error, fail_if}
use bms_gui.Exec.{Exec, pure, reads, lift, ◌>>=◌, ◌>>◌}
use bms_gui.Store.{
  Env, World, reconciliation_records, read_payloads, utc_now, or_else, append_record,
  append_audit_record, append_business_event, append_wal_committed,
}
use bms_gui.Auth.Identity.{UserRecord, RoleAssignment, Directory, authorize}
use bms_gui.Recovery.Effects.{any_with}
use bms_gui.Recovery.Pending.{PendingRecoveryTransaction, pending_transactions, find_pending}

pub data RecoveryReconciliationDecision : Type 0 where
  accepted_existing_records requires_accounting_adjustment : RecoveryReconciliationDecision
  requires_restore_from_backup voided_as_incomplete : RecoveryReconciliationDecision

abbrev pub decision_value : RecoveryReconciliationDecision → String
decision_value accepted_existing_records = "accepted_existing_records"
decision_value requires_accounting_adjustment = "requires_accounting_adjustment"
decision_value requires_restore_from_backup = "requires_restore_from_backup"
decision_value voided_as_incomplete = "voided_as_incomplete"

-- `decision in _RESOLVING_RECONCILIATION_DECISIONS`
abbrev pub is_resolving : RecoveryReconciliationDecision → Bool
is_resolving accepted_existing_records = true
is_resolving _ = false

pub record RecoveryReconciliationResult : Type 0 where
  pub reconciliation_id : String
  pub transaction_id : String
  pub decision : RecoveryReconciliationDecision
  pub resolved : Bool

-- `_parse_reconciliation_decision`
unfoldable pub parse_reconciliation_decision : String → Result RecoveryReconciliationDecision
parse_reconciliation_decision decision =
    if str_eq decision "accepted_existing_records"
    then ok accepted_existing_records
    else if str_eq decision "requires_accounting_adjustment"
    then ok requires_accounting_adjustment
    else if str_eq decision "requires_restore_from_backup"
    then ok requires_restore_from_backup
    else if str_eq decision "voided_as_incomplete"
    then ok voided_as_incomplete
    else err (
        recovery_error (
          "unsupported reconciliation decision " & decision
          & "; expected one of: accepted_existing_records, requires_accounting_adjustment, "
          & "requires_restore_from_backup, voided_as_incomplete"))

-- The required arguments of both calls.
unfoldable pub require_arguments : String → String → String → Result (Unit {0})
require_arguments transaction_id actor_id reason =
    R.◌>>◌ (fail_if (not (truthy transaction_id)) (recovery_error "transaction_id is required")) (
      R.◌>>◌ (fail_if (not (truthy actor_id)) (recovery_error "actor_id is required"))
        (fail_if (not (truthy reason)) (recovery_error "reason is required")))

-- What is recorded of a decision.
unfoldable pub reconciliation_payload :
    PendingRecoveryTransaction
    → RecoveryReconciliationDecision
    → String
    → String
    → String
    → String
    → Payload
reconciliation_payload t decision transaction_id actor_id reason created_at = dict (
    ("reconciliation_id", str ("rec_" & transaction_id))
    ∷ ("transaction_id", str t.transaction_id)
    ∷ ("operation", str t.operation)
    ∷ ("correlation_id", str t.correlation_id)
    ∷ ("decision", str (decision_value decision))
    ∷ ("reason", str reason)
    ∷ ("actor_id", str actor_id)
    ∷ ("created_at", str created_at)
    ∷ ("resolved", bool (is_resolving decision))
    ∷ ("side_effects", arr (str_list t.side_effects))
    ∷ ("pending_payload", obj t.payload)
    ∷ [])

module _ (env : Env) (users : List UserRecord) (assignments : List RoleAssignment) where
  -- `_authorize_reconciliation`
  unfoldable pub authorize_reconciliation : String → World → Result (Unit {0})
  authorize_reconciliation actor_id w =
      authorize "recovery.reconcile" actor_id
        (record { world = w; users = users; assignments = assignments })

  -- `_has_reconciliation_record`
  unfoldable pub has_reconciliation_record : String → World → Result Bool
  has_reconciliation_record transaction_id w =
      R.◌>>=◌ (read_payloads env reconciliation_records w)
        λ recorded. ok (any_with "transaction_id" transaction_id recorded)

  -- The pending transaction, or the error that there is none.
  unfoldable pub require_pending : String → World → Result PendingRecoveryTransaction
  require_pending transaction_id w = R.◌>>=◌ (pending_transactions env w) λ pending.
      elim (find_pending transaction_id pending) [
        | none ↦ err (recovery_error ("pending transaction " & transaction_id & " was not found"))
        | some transaction ↦ ok transaction
      ]

  -- The pending transaction, where it has not been reconciled.
  unfoldable pub plan_reconciliation : String → World → Result PendingRecoveryTransaction
  plan_reconciliation transaction_id w = R.◌>>=◌ (require_pending transaction_id w) λ transaction.
      R.◌>>=◌ (has_reconciliation_record transaction_id w) λ recorded.
        R.◌>>◌
          (fail_if recorded
            (recovery_error ("transaction " & transaction_id & " is already reconciled")))
          (ok transaction)

  -- The committed record, where the decision resolves the transaction.
  unfoldable pub commit_if :
      Bool → PendingRecoveryTransaction → String → String → Exec World (Unit {0})
  commit_if resolved t created_at actor_id =
      if resolved
      then append_wal_committed env t.transaction_id created_at actor_id t.correlation_id
      else pure tt

  -- The writes.
  unfoldable pub write_reconciliation :
      PendingRecoveryTransaction
      → RecoveryReconciliationDecision
      → String
      → String
      → String
      → String
      → Exec World RecoveryReconciliationResult
  write_reconciliation t decision transaction_id actor_id reason created_at = do
    append_record env reconciliation_records "recovery.reconciliation_record" actor_id
        t.correlation_id ("recovery_reconciliation_" & transaction_id)
        (reconciliation_payload t decision transaction_id actor_id reason created_at)
        (some ("rec_" & transaction_id)) (some created_at)
    append_audit_record env "recovery.reconciliation_recorded" actor_id "wal_transaction"
        t.transaction_id t.correlation_id (some created_at)
        (dict (
          ("operation", str t.operation)
          ∷ ("decision", str (decision_value decision))
          ∷ ("resolved", bool (is_resolving decision))
          ∷ ("reason", str reason)
          ∷ ("side_effects", arr (str_list t.side_effects))
          ∷ []))
        (some ("audit_recovery_reconciliation_" & transaction_id))
    append_business_event env "recovery.reconciliation_recorded.v1" actor_id
        (dict (
          ("reconciliation_id", str ("rec_" & transaction_id))
          ∷ ("transaction_id", str t.transaction_id)
          ∷ ("operation", str t.operation)
          ∷ ("decision", str (decision_value decision))
          ∷ ("resolved", bool (is_resolving decision))
          ∷ []))
        (some t.correlation_id) (some created_at)
        (some ("event_recovery_reconciliation_" & transaction_id))
    commit_if (is_resolving decision) t created_at actor_id
    pure (record {
      reconciliation_id = "rec_" & transaction_id;
      transaction_id = t.transaction_id;
      decision = decision;
      resolved = is_resolving decision;
    })

  unfoldable pub reconcile_recovery_transaction :
      String → String → String → String → Option String → Exec World RecoveryReconciliationResult
  reconcile_recovery_transaction transaction_id decision actor_id reason created_at = do
    lift (require_arguments transaction_id actor_id reason)
    reads (authorize_reconciliation actor_id)
    parsed ← lift (parse_reconciliation_decision decision)
    time ← or_else env created_at (utc_now env)
    transaction ← reads (plan_reconciliation transaction_id)
    write_reconciliation transaction parsed transaction_id actor_id reason time
