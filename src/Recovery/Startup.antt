-- ===== src/Recovery/Startup.antt =====
-- `StartupHealthService` of src/bms/app/startup.py, and `inspect_wal_startup` and
-- `recover_wal_startup` of src/bms/core.py over the C core.
use bms_gui.Prelude.{
  ℕ, String, Bool, true, false, ◌&&◌, ◌||◌, Option, none, some, List, [], ◌∷◌, nat_eq,
  if◌then◌else◌,
}
use bms_gui.Fields.{◌&◌}
use bms_gui.Result.{Result, ok, err, core_error, ◌>>=◌}
use bms_gui.Exec.{Exec}
use bms_gui.Store.{
  FilePath, wal, business_events, journal_entries, journal_lines, periods, items, stock_movements,
  invoices, invoice_lines, refunds, refund_lines, audit_records, reconciliation_records, path_eq,
  AppendRecord, World, Env,
}

-- `WalRecoveryResult`
pub record WalRecoveryResult : Type 0 where
  pub status : ℕ
  pub decision : ℕ

-- What recovery asks of code that is not here: the two functions of the C core on the log, for a
-- required snapshot or none, the second with the log that it leaves.
pub record RecoveryEnv : Type 0 where
  pub inspect_startup : Option String → List AppendRecord → WalRecoveryResult
  pub recover_startup : Option String → List AppendRecord → WalRecoveryResult × List AppendRecord

pub data StartupState : Type 0 where
  healthy recovery_required protected_mode : StartupState

abbrev pub state_value : StartupState → String
state_value healthy = "healthy"
state_value recovery_required = "recovery_required"
state_value protected_mode = "protected_mode"

abbrev pub is_healthy : StartupState → Bool
is_healthy healthy = true
is_healthy _ = false

pub record StartupHealth : Type 0 where
  pub state : StartupState
  pub wal_status : ℕ
  pub wal_decision : ℕ
  pub message : String

-- `status in (BMS_OK, BMS_ERR_RECOVERY_REQUIRED, BMS_ERR_PROTECTED_MODE)`
abbrev pub known_status : ℕ → Bool
known_status status = nat_eq status 0 || nat_eq status 7 || nat_eq status 8

-- `path.name`
abbrev pub file_name : FilePath → String
file_name wal = "current.wal.jsonl"
file_name business_events = "business_events.jsonl"
file_name journal_entries = "journal_entries.jsonl"
file_name journal_lines = "journal_lines.jsonl"
file_name periods = "periods.jsonl"
file_name items = "items.jsonl"
file_name stock_movements = "stock_movements.jsonl"
file_name invoices = "invoices.jsonl"
file_name invoice_lines = "invoice_lines.jsonl"
file_name refunds = "refunds.jsonl"
file_name refund_lines = "refund_lines.jsonl"
file_name audit_records = "audit_records.jsonl"
file_name reconciliation_records = "reconciliation_records.jsonl"

-- `_SOURCE_FILE_ATTRIBUTES`
abbrev pub source_files : List FilePath
source_files =
    business_events ∷ journal_entries ∷ journal_lines ∷ periods ∷ items ∷ stock_movements ∷ invoices
    ∷ invoice_lines ∷ refunds ∷ refund_lines ∷ audit_records ∷ reconciliation_records ∷ []

-- What `inspect` makes of the answer of the core, where the log is not clean.
unfoldable pub unclean_health : WalRecoveryResult → StartupHealth
unclean_health result =
    let health : StartupState → String → StartupHealth = λ state message. record {
      state = state;
      wal_status = result.status;
      wal_decision = result.decision;
      message = message;
    } in
    if nat_eq result.status 8 || nat_eq result.decision 3
    then health protected_mode "storage entered protected read-only mode"
    else if nat_eq result.status 7 && (nat_eq result.decision 1 || nat_eq result.decision 2)
    then health recovery_required "storage recovery is required before normal startup"
    else health protected_mode "storage startup returned an unknown WAL state"

abbrev pub clean_health : WalRecoveryResult → StartupHealth
clean_health result = record {
  state = healthy;
  wal_status = result.status;
  wal_decision = result.decision;
  message = "storage is clean";
}

abbrev pub damaged_health : FilePath → StartupHealth
damaged_health path = record {
  state = protected_mode;
  wal_status = 8;
  wal_decision = 3;
  message = "source file failed integrity verification: " & file_name path;
}

module _ (env : Env) where
  -- `_inspect_source_files`
  unfoldable pub inspect_source_files : List FilePath → World → Option StartupHealth
  inspect_source_files [] w = none
  inspect_source_files (path ∷ paths) w =
      let others = inspect_source_files paths w in
      if nat_eq (env.verify_status path (w.tables path)) 0
      then others
      else some (damaged_health path)

  module _ (core : RecoveryEnv) where
    unfoldable pub inspect_wal_startup : Option String → World → Result WalRecoveryResult
    inspect_wal_startup snapshot w =
        let result = core.inspect_startup snapshot (w.tables wal) in
        if known_status result.status then ok result else err (core_error result.status)

    -- The log that the core leaves is there also where its status raises.
    unfoldable pub recover_wal_startup : Option String → Exec World WalRecoveryResult
    recover_wal_startup snapshot w =
        let (result, log) = core.recover_startup snapshot (w.tables wal) in
        let w' : World = record w { tables = λ p. if path_eq wal p then log else w.tables p } in
        (if known_status result.status then ok result else err (core_error result.status), w')

    -- `inspect`
    unfoldable pub inspect : Option String → World → Result StartupHealth
    inspect snapshot w = do
      result ← inspect_wal_startup snapshot w
      let damaged = inspect_source_files source_files w
      let clean : StartupHealth = elim damaged [ none ↦ clean_health result | some health ↦ health ]
      ok (
          if nat_eq result.status 0 && nat_eq result.decision 0
          then clean
          else unclean_health result)
