-- ===== src/Recovery/Report.antt =====
-- `export_application_recovery_report` of src/bms/app/recovery.py: the report on a recovery and
-- the action that it recommends.
use bms_gui.Prelude.{
  select, String, Bool, false, not, ◌&&◌, Option, none, some, List, [], ◌∷◌, is_empty, str_in,
  str_eq, if◌then◌else◌,
}
use bms_gui.Fields.{take_text}
use bms_gui.Json.{Payload, get, is_text, as_text}
use bms_gui.Result.{Result, ok, ◌>>=◌}
use bms_gui.Store.{
  Env, World, reconciliation_records, journal_entries, audit_records, business_events,
  read_payloads,
}
use bms_gui.Recovery.Startup.{
  RecoveryEnv, StartupState, healthy, recovery_required, protected_mode, StartupHealth, is_healthy,
}
use bms_gui.Recovery.Pending.{PendingRecoveryTransaction}
use bms_gui.Recovery.Automatic.{
  automatic_recovery_safe, unsafe_transactions, inspect_application_recovery,
}
use bms_gui.Recovery.Resolve.{is_adjustment, has_adjustment}

-- The texts of a field.
unfoldable pub texts_in : String → List Payload → List String
texts_in field [] = []
texts_in field (payload ∷ rest) =
    let others = texts_in field rest in
    elim (as_text (get field payload)) [ none ↦ others | some s ↦ s ∷ others ]

abbrev pub text_in : Option String → List String → Bool
text_in none names = false
text_in (some s) names = str_in s names

-- `_recovery_correction_journals`; the journal is read only where there are corrections.
unfoldable pub recovery_correction_journals : Env → List Payload → World → Result (List Payload)
recovery_correction_journals env recorded w =
    let ids = texts_in "correction_journal_id" recorded in
    if is_empty ids then ok [] else (do
      entries ← read_payloads env journal_entries w
      ok (select (λ payload. text_in (as_text (get "journal_id" payload)) ids) entries))

-- `str(value).startswith("recovery.")`
abbrev pub of_recovery : Option String → Bool
of_recovery none = false
of_recovery (some s) = str_eq (take_text 9 s) "recovery."

-- `_recovery_audit_references` and `_recovery_event_references`
unfoldable pub recovery_audit_references : Env → World → Result (List Payload)
recovery_audit_references env w = do
  recorded ← read_payloads env audit_records w
  ok (select (λ payload. of_recovery (as_text (get "action" payload))) recorded)

unfoldable pub recovery_event_references : Env → World → Result (List Payload)
recovery_event_references env w = do
  recorded ← read_payloads env business_events w
  ok (select (λ payload. of_recovery (as_text (get "event_type" payload))) recorded)

-- `reconciliation_by_transaction.get(transaction_id)`: the last record that is no adjustment.
unfoldable pub last_reconciliation : String → List Payload → Option Payload
last_reconciliation id [] = none
last_reconciliation id (payload ∷ rest) = elim (last_reconciliation id rest) [
  | some later ↦ some later
  | none ↦
      if is_text (get "transaction_id" payload) id && not (is_adjustment payload)
      then some payload
      else none
]

-- What is to be done about a transaction with side effects; none where the loop goes on.
unfoldable pub action_for : String → List Payload → Option Payload → Option String
action_for id recorded none = some "run_bms_recovery_reconcile"
action_for id recorded (some reconciliation) =
    let decision = get "decision" reconciliation in
    if is_text decision "requires_accounting_adjustment"
    then (if has_adjustment id recorded
        then some "run_bms_recovery_inspect"
        else some "run_bms_recovery_resolve_accounting_adjustment")
    else if is_text decision "requires_restore_from_backup"
    then some "restore_from_backup"
    else if is_text decision "voided_as_incomplete"
    then some "manual_void_resolution_not_implemented"
    else none

-- The loop over the transactions.
unfoldable pub first_action : List Payload → List PendingRecoveryTransaction → String
first_action recorded [] = "run_bms_recovery_inspect"
first_action recorded (t ∷ rest) =
    let later = first_action recorded rest in
    elim (action_for t.transaction_id recorded (last_reconciliation t.transaction_id recorded)) [
      | none ↦ later
      | some action ↦ action
    ]

-- The recommendation for storage that is not protected.
unfoldable pub action_for_pending : List PendingRecoveryTransaction → List Payload → String
action_for_pending pending recorded =
    if is_empty pending
    then "normal_startup_allowed"
    else if is_empty (unsafe_transactions pending)
    then "run_bms_recovery_recover"
    else first_action recorded pending

-- `_recommended_next_action`
unfoldable pub recommended_next_action :
    StartupState → List PendingRecoveryTransaction → List Payload → String
recommended_next_action protected_mode pending recorded =
    "restore_from_backup_or_manual_storage_repair"
recommended_next_action healthy pending recorded = action_for_pending pending recorded
recommended_next_action recovery_required pending recorded = action_for_pending pending recorded

-- The fields of the report.
pub record ApplicationRecoveryReport : Type 0 where
  pub startup_health : StartupHealth
  pub normal_startup_allowed : Bool
  pub automatic_recovery_safe : Bool
  pub pending_transactions : List PendingRecoveryTransaction
  pub reconciliation_records : List Payload
  pub correction_journals : List Payload
  pub audit_references : List Payload
  pub event_references : List Payload
  pub recommended_next_action : String

-- `export_application_recovery_report`
unfoldable pub application_recovery_report :
    Env → RecoveryEnv → Option String → World → Result ApplicationRecoveryReport
application_recovery_report env core snapshot w = do
  diagnostics ← inspect_application_recovery env core snapshot w
  recorded ← read_payloads env reconciliation_records w
  corrections ← recovery_correction_journals env recorded w
  audits ← recovery_audit_references env w
  events ← recovery_event_references env w
  let health = diagnostics.startup_health
  let pending = diagnostics.pending_transactions
  ok (record {
    startup_health = health;
    normal_startup_allowed = is_healthy health.state;
    automatic_recovery_safe = automatic_recovery_safe diagnostics;
    pending_transactions = pending;
    reconciliation_records = recorded;
    correction_journals = corrections;
    audit_references = audits;
    event_references = events;
    recommended_next_action = recommended_next_action health.state pending recorded;
  })
