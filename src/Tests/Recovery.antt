-- ===== src/Tests/Recovery.antt =====
-- Runs of recovery, after a journal that was not finished.
use bms_gui.Prelude.{
  String, pos, ◌≡◌, ◌↔◌, refl, true, false, not, ◌&&◌, List, [], ◌∷◌, is_empty, none, if◌then◌else◌,
}
use bms_gui.Json.{Payload, str, int, arr, cons, nil, obj, bool, dict}
use bms_gui.Result.{ok}
use bms_gui.Store.{
  FilePath, reconciliation_records, World, Env, wal, journal_entries, path_eq, written, refused,
}
use bms_gui.Accounting.Models.{baseline_chart_of_accounts}
use bms_gui.Accounting.Posting.{post_journal}
use bms_gui.Auth.Policy.{admin}
use bms_gui.Auth.Identity.{UserRecord, RoleAssignment}
use bms_gui.Recovery.Startup.{StartupHealth, recovery_required, healthy}
use bms_gui.Backup.Files.{Content, plain_text, Location}
use bms_gui.Bootstrap.{DataRoot}
use bms_gui.Recovery.Effects.{durable_side_effects}
use bms_gui.Recovery.Effects.Written.{MayLeave}
use bms_gui.Recovery.Effects.Safe.{IsAbsent, durable_side_effects-IsAbsent}
use bms_gui.Recovery.Pending.{PendingRecoveryTransaction, pending_transactions, find_pending}
use bms_gui.Recovery.Automatic.{ApplicationRecoveryResult, recover_application_storage}
use bms_gui.Recovery.Automatic.Safe.{IsRecovered, recover_application_storage-IsRecovered}
use bms_gui.Recovery.Reconcile.{
  RecoveryReconciliationResult, accepted_existing_records, reconcile_recovery_transaction,
}
use bms_gui.Recovery.Reconcile.Recorded.{
  IsSettled, reconcile_recovery_transaction-IsSettled, reconcile_recovery_transaction-finished,
}
use bms_gui.Recovery.Resolve.{
  RecoveryAccountingAdjustmentResult, resolve_recovery_accounting_adjustment,
}
use bms_gui.Recovery.Resolve.Recorded.{
  IsAdjusted, resolve_recovery_accounting_adjustment-IsAdjusted,
  resolve_recovery_accounting_adjustment-finished,
}
use bms_gui.Tests.Setup.{runs, env, core, new_world, opening_journal, stored}

-- The log takes one record, and no more.
abbrev broken : Env
broken = record env {
  fate = λ path table r. if path_eq wal path && not (is_empty table) then refused 3 else written;
}

-- The journal is written and its committed record is not.
abbrev stuck_world : World
stuck_world = (post_journal broken baseline_chart_of_accounts opening_journal new_world).1

-- The log takes a record, and the journal does not.
abbrev read_only : Env
read_only = record env {
  fate = λ path table r. if path_eq journal_entries path then refused 3 else written;
}

abbrev unwritten_world : World
unwritten_world = (post_journal read_only baseline_chart_of_accounts opening_journal new_world).1

abbrev users : List UserRecord
users = record { actor_id = "ann"; display_name = "Ann"; active = true } ∷ []

abbrev assignments : List RoleAssignment
assignments = record { actor_id = "ann"; roles = admin ∷ [] } ∷ []

abbrev journal_payload : Payload
journal_payload = dict (
    ("operation", str "accounting.post_journal")
    ∷ ("journal_id", str "j1")
    ∷ ("period_id", str "FY2026-01")
    ∷ ("source_document_id", str "doc1")
    ∷ [])

abbrev stuck_transaction : PendingRecoveryTransaction
stuck_transaction = record {
  transaction_id = "txn_accounting_j1_0a";
  operation = "accounting.post_journal";
  correlation_id = "c1";
  side_effects = "journal entry exists" ∷ "journal lines exist" ∷ [];
  payload = journal_payload;
}

effects_run :
    durable_side_effects env journal_payload stuck_world
    ≡ ok ("journal entry exists" ∷ "journal lines exist" ∷ [])
unfolding runs
effects_run = refl

durable_side_effects-IsAbsent_example : (false ≡ true) ↔ (
    (path : FilePath) (field_name id : String)
    → MayLeave journal_payload path field_name id
    → IsAbsent stuck_world path field_name id)
durable_side_effects-IsAbsent_example =
    durable_side_effects-IsAbsent env journal_payload stuck_world effects_run

stuck_run : pending_transactions env stuck_world ≡ ok (stuck_transaction ∷ [])
unfolding runs
stuck_run = refl

abbrev stuck_health : StartupHealth
stuck_health = record {
  state = recovery_required;
  wal_status = 7;
  wal_decision = 1;
  message = "storage recovery is required before normal startup";
}

abbrev pub recovered : ApplicationRecoveryResult
recovered = record {
  before = stuck_health;
  recovery = record { status = 0; decision = 0 };
  after = record {
    state = healthy;
    wal_status = 0;
    wal_decision = 0;
    message = "storage is clean";
  };
}

abbrev pub documents : Content × Content
documents = (plain_text "users", plain_text "roles")

abbrev pub root : Location
root = "data" ∷ []

-- A root that has no other files yet.
abbrev pub unwritten_root : DataRoot
unwritten_root = record { world = unwritten_world; disk = record { directories = []; files = [] } }

abbrev pub recovered_root : DataRoot
recovered_root = (recover_application_storage env core documents root none unwritten_root).1

pub recovered_run :
    recover_application_storage env core documents root none unwritten_root
    ≡ (ok recovered, recovered_root)
unfolding runs
recovered_run = refl

recover_application_storage-IsRecovered_example :
    IsRecovered env core documents root none unwritten_root recovered recovered_root
recover_application_storage-IsRecovered_example =
    recover_application_storage-IsRecovered env core documents root none unwritten_root
      recovered_run

abbrev settled : RecoveryReconciliationResult
settled = record {
  reconciliation_id = "rec_txn_accounting_j1_0a";
  transaction_id = "txn_accounting_j1_0a";
  decision = accepted_existing_records;
  resolved = true;
}

abbrev settled_world : World
settled_world =
    (reconcile_recovery_transaction env users assignments "txn_accounting_j1_0a"
      "accepted_existing_records" "ann" "checked" none stuck_world).1

settled_run :
    reconcile_recovery_transaction env users assignments "txn_accounting_j1_0a"
      "accepted_existing_records" "ann" "checked" none stuck_world
    ≡ (ok settled, settled_world)
unfolding runs
settled_run = refl

reconcile_recovery_transaction-IsSettled_example :
    IsSettled env users assignments "txn_accounting_j1_0a" "accepted_existing_records" "ann"
      "checked" stuck_world settled settled_world
reconcile_recovery_transaction-IsSettled_example =
    reconcile_recovery_transaction-IsSettled env users assignments "txn_accounting_j1_0a"
      "accepted_existing_records" "ann" "checked" none stuck_world settled_run

nothing_left : pending_transactions env settled_world ≡ ok []
unfolding runs
nothing_left = refl

reconcile_recovery_transaction-finished_example : find_pending "txn_accounting_j1_0a" [] ≡ none
reconcile_recovery_transaction-finished_example =
    reconcile_recovery_transaction-finished env users assignments "txn_accounting_j1_0a"
      "accepted_existing_records" "ann" "checked" none stuck_world settled_run refl refl
      nothing_left

-- The journal of the adjustment.
abbrev line_of_amount : String → String → Payload
line_of_amount account field = dict (("account_code", str account) ∷ (field, int (pos 500)) ∷ [])

abbrev correction_payload : Payload
correction_payload = dict (
    ("journal_id", str "j2")
    ∷ ("period_id", str "FY2026-01")
    ∷ ("timestamp", str "2026-01-15T10:00:00Z")
    ∷ ("actor_id", str "ann")
    ∷ ("source_module", str "recovery")
    ∷ ("source_document_id", str "txn_accounting_j1_0a")
    ∷ ("correlation_id", str "c1")
    ∷ ("description", str "opening")
    ∷ (
      "lines",
      arr (
          cons (obj (line_of_amount "1000" "debit_minor"))
            (cons (obj (line_of_amount "3000" "credit_minor")) nil)),
    )
    ∷ [])

-- A transaction that waits for an adjustment.
abbrev waiting_world : World
waiting_world = record new_world {
  tables = λ path.
      if path_eq wal path
      then stored "wal" (
          dict (
            ("transaction_id", str "txn_accounting_j1_0a")
            ∷ ("state", str "pending")
            ∷ ("payload", obj journal_payload)
            ∷ []))
        ∷ []
      else if path_eq reconciliation_records path
      then stored "rec" (
          dict (
            ("transaction_id", str "txn_accounting_j1_0a")
            ∷ ("decision", str "requires_accounting_adjustment")
            ∷ ("resolved", bool false)
            ∷ []))
        ∷ []
      else [];
}

abbrev adjusted : RecoveryAccountingAdjustmentResult
adjusted = record {
  reconciliation_id = "rec_txn_accounting_j1_0a_accounting_adjustment";
  transaction_id = "txn_accounting_j1_0a";
  correction_journal_id = "j2";
  resolved = true;
}

abbrev adjusted_world : World
adjusted_world =
    (resolve_recovery_accounting_adjustment env users assignments "txn_accounting_j1_0a" "ann"
      "corrected" correction_payload none waiting_world).1

adjusted_run :
    resolve_recovery_accounting_adjustment env users assignments "txn_accounting_j1_0a" "ann"
      "corrected" correction_payload none waiting_world
    ≡ (ok adjusted, adjusted_world)
unfolding runs
adjusted_run = refl

resolve_recovery_accounting_adjustment-IsAdjusted_example :
    IsAdjusted env users assignments "txn_accounting_j1_0a" "ann" correction_payload waiting_world
      adjusted adjusted_world
resolve_recovery_accounting_adjustment-IsAdjusted_example =
    resolve_recovery_accounting_adjustment-IsAdjusted env users assignments "txn_accounting_j1_0a"
      "ann" "corrected" correction_payload none waiting_world adjusted_run

adjusted_pending : pending_transactions env adjusted_world ≡ ok []
unfolding runs
adjusted_pending = refl

resolve_recovery_accounting_adjustment-finished_example :
    find_pending "txn_accounting_j1_0a" [] ≡ none
resolve_recovery_accounting_adjustment-finished_example =
    resolve_recovery_accounting_adjustment-finished env users assignments "txn_accounting_j1_0a"
      "ann" "corrected" correction_payload none waiting_world adjusted_run refl adjusted_pending
