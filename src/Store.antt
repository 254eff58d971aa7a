-- ===== src/Store.antt =====
-- src/bms/storage/file_store/core_store.py over the native core of core/: the files of the data
-- directory, and the appends and reads that every service goes through.
pub mod Frame
pub mod Append
use bms_gui.Prelude.{
  ℕ, ◌+◌, String, Bool, true, false, ◌||◌, not, Option, none, some, List, [], ◌∷◌, ◌++◌, map,
  length, is_empty, str_eq, nat_eq, if◌then◌else◌,
}
use bms_gui.Json.{Value, Payload, str, obj, dict, merge, nothing}
use bms_gui.Fields.{◌&◌, truthy}
use bms_gui.Result.{event_schema_error, core_error, Result, ok, err}
use bms_gui.Exec.{Exec, pure, lift, ◌>>=◌, ◌>>◌}
use bms_gui.Events.{Schema, event_schemas}

-- The record files of `CoreFileStore.__init__`.
pub data FilePath : Type 0 where
  wal business_events journal_entries journal_lines periods items stock_movements : FilePath
  invoices invoice_lines refunds refund_lines audit_records reconciliation_records : FilePath

abbrev path_index : FilePath → ℕ
path_index wal = 0
path_index business_events = 1
path_index journal_entries = 2
path_index journal_lines = 3
path_index periods = 4
path_index items = 5
path_index stock_movements = 6
path_index invoices = 7
path_index invoice_lines = 8
path_index refunds = 9
path_index refund_lines = 10
path_index audit_records = 11
path_index reconciliation_records = 12

abbrev pub path_eq : FilePath → FilePath → Bool
path_eq p q = nat_eq (path_index p) (path_index q)

-- `AppendRecord`; a line of a record file holds one, with its place and checksum.
pub record AppendRecord : Type 0 where
  pub record_id : String
  pub record_type : String
  pub created_at : String
  pub actor_id : String
  pub correlation_id : String
  pub idempotency_key : String
  pub payload : Payload
  pub schema_version : ℕ

-- The state of a running application: the record files, the set that `AccountingService` keeps in
-- memory, and how often the clock and the identifier source were asked.
pub record World : Type 0 where
  pub tables : FilePath → List AppendRecord
  pub closed_periods : List String
  pub ticks : ℕ

-- How an append to a file ended: written; not written, with a status; or written and then
-- reported as failed, where the flush of the file fails.
pub data Fate : Type 0 where
  written : Fate
  refused : ℕ → Fate
  unflushed : ℕ → Fate

-- What the program asks of its surroundings.
pub record Env : Type 0 where
  pub fate : FilePath → List AppendRecord → AppendRecord → Fate
  pub verify_status : FilePath → List AppendRecord → ℕ
  pub model_validate : Schema → Payload → Option Payload
  pub utc_now : ℕ → String
  pub uuid4_hex : ℕ → String

unfoldable pub has_key : String → List AppendRecord → Bool
has_key key [] = false
has_key key (r ∷ table) = str_eq r.idempotency_key key || has_key key table

unfoldable pub add_record : FilePath → AppendRecord → World → World
add_record path r w = record w {
  tables = λ p. if path_eq path p then w.tables p ++ r ∷ [] else w.tables p;
}

unfoldable pub settle : Fate → FilePath → AppendRecord → Exec World ℕ
settle written path r w = (ok (length (w.tables path) + 1), add_record path r w)
settle (refused status) path r w = (err (core_error status), w)
settle (unflushed status) path r w = (err (core_error status), add_record path r w)

-- The payloads of a file, oldest first.
abbrev pub payloads : FilePath → World → List Payload
payloads path w = map (λ (r : AppendRecord). r.payload) (w.tables path)

module _ (env : Env) where
  -- `BmsCore.append_record`: an idempotency key is taken once in each file.
  unfoldable pub core_append_record : FilePath → AppendRecord → Exec World ℕ
  unfolding settle
  core_append_record path r w =
      if has_key r.idempotency_key (w.tables path)
      then (err (core_error 5), w)
      else settle (env.fate path (w.tables path) r) path r w

  -- `uuid4().hex` and `_utc_now()`
  unfoldable pub uuid4_hex : Exec World String
  uuid4_hex w = (ok (env.uuid4_hex w.ticks), record w { ticks = w.ticks + 1 })

  unfoldable pub utc_now : Exec World String
  utc_now w = (ok (env.utc_now w.ticks), record w { ticks = w.ticks + 1 })

  -- `given or default`
  unfoldable pub or_else : Option String → Exec World String → Exec World String
  or_else none default = default
  or_else (some s) default = if truthy s then pure s else default

  unfoldable pub append_wal_record :
      String → String → String → String → String → Payload → Exec World (Unit {0})
  append_wal_record transaction_id state created_at actor_id correlation_id payload = do
    core_append_record wal (record {
      record_id = "wal_" & transaction_id & "_" & state;
      record_type = "wal.transaction";
      created_at = created_at;
      actor_id = actor_id;
      correlation_id = correlation_id;
      idempotency_key = "wal_" & transaction_id & "_" & state;
      payload = dict (
          ("transaction_id", str transaction_id)
          ∷ ("state", str state)
          ∷ ("payload", obj payload)
          ∷ []);
      schema_version = 1;
    })
    pure tt

  unfoldable pub append_wal_pending :
      String → String → String → String → Payload → Exec World (Unit {0})
  append_wal_pending transaction_id created_at actor_id correlation_id payload =
      append_wal_record transaction_id "pending" created_at actor_id correlation_id payload

  unfoldable pub append_wal_committed : String → String → String → String → Exec World (Unit {0})
  append_wal_committed transaction_id created_at actor_id correlation_id =
      append_wal_record transaction_id "committed" created_at actor_id correlation_id nothing

  -- `CoreFileStore.append_record`
  unfoldable pub append_record :
      FilePath
      → String
      → String
      → String
      → String
      → Payload
      → Option String
      → Option String
      → Exec World ℕ
  append_record path record_type actor_id correlation_id key payload record_id created_at = do
    id ← or_else record_id (do hex ← uuid4_hex; pure ("rec_" & hex))
    time ← or_else created_at utc_now
    core_append_record path (record {
      record_id = id;
      record_type = record_type;
      created_at = time;
      actor_id = actor_id;
      correlation_id = correlation_id;
      idempotency_key = key;
      payload = payload;
      schema_version = 1;
    })

  -- `validate_business_event_payload`
  unfoldable pub validate_business_event_payload : String → Payload → Result Payload
  validate_business_event_payload event_type payload = elim (event_schemas event_type) [
    | none ↦ err (event_schema_error ("unknown business event type " & event_type))
    | some schema ↦ elim (env.model_validate schema payload) [
      | none ↦ err (event_schema_error ("business event " & event_type & " payload is invalid"))
      | some event ↦ ok event
    ]
  ]

  unfoldable pub append_business_event :
      String → String → Payload → Option String → Option String → Option String → Exec World ℕ
  unfolding or_else
  append_business_event event_type actor_id payload correlation_id occurred_at key = do
    hex ← uuid4_hex
    let event_id = "evt_" & hex
    time ← or_else occurred_at utc_now
    event ← lift (
        validate_business_event_payload event_type
          (merge (dict (("event_type", str event_type) ∷ ("occurred_at", str time) ∷ [])) payload))
    correlation ← or_else correlation_id (pure event_id)
    idempotency ← or_else key (pure event_id)
    append_record business_events "event.business" actor_id correlation idempotency event
        (some event_id) (some time)

  unfoldable pub append_audit_record :
      String
      → String
      → String
      → String
      → String
      → Option String
      → Payload
      → Option String
      → Exec World ℕ
  append_audit_record action actor_id target_type target_id correlation_id occurred_at details key =
      do
        time ← or_else occurred_at utc_now
        let record_id = "aud_" & action & "_" & target_id
        idempotency ← or_else key (pure record_id)
        append_record audit_records "audit.record" actor_id correlation_id idempotency
            (dict (
              ("action", str action)
              ∷ ("actor_id", str actor_id)
              ∷ ("occurred_at", str time)
              ∷ ("target_type", str target_type)
              ∷ ("target_id", str target_id)
              ∷ ("correlation_id", str correlation_id)
              ∷ ("details", obj details)
              ∷ []))
            (some record_id) (some time)

  -- A file that is not there reads as an empty one and is not verified.
  unfoldable pub read_payloads : FilePath → World → Result (List Payload)
  read_payloads path w =
      let status = env.verify_status path (w.tables path) in
      if is_empty (w.tables path) || nat_eq status 0
      then ok (payloads path w)
      else err (core_error status)
