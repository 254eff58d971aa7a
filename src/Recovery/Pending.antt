-- ===== src/Recovery/Pending.antt =====
-- `_pending_transactions` and `_committed_transaction_ids` of src/bms/app/recovery.py.
pub mod Finished
use bms_gui.Prelude.{
  ℕ, String, Bool, ◌||◌, not, ◌&&◌, Option, none, some, List, [], ◌∷◌, ◌++◌, map, is_empty, nat_eq,
  str_eq, str_in, if◌then◌else◌,
}
use bms_gui.Fields.{truthy}
use bms_gui.Json.{Value, obj, Payload, nothing, get, is_text, as_text}
use bms_gui.Result.{Result, ok, err, core_error, ◌>>=◌}
use bms_gui.Store.{wal, Env, World, AppendRecord}
use bms_gui.Recovery.Effects.{durable_side_effects}

pub record PendingRecoveryTransaction : Type 0 where
  pub transaction_id : String
  pub operation : String
  pub correlation_id : String
  pub side_effects : List String
  pub payload : Payload

-- `_string_or_unknown`
abbrev pub string_or_unknown : Option String → String
string_or_unknown none = "unknown"
string_or_unknown (some s) = if truthy s then s else "unknown"

-- `isinstance(value, dict)`
abbrev pub as_obj : Option Value → Option Payload
as_obj (some (obj p)) = some p
as_obj _ = none

abbrev pub malformed : AppendRecord → PendingRecoveryTransaction
malformed r = record {
  transaction_id = "unknown";
  operation = "unknown";
  correlation_id = string_or_unknown (some r.correlation_id);
  side_effects = "malformed WAL payload" ∷ [];
  payload = nothing;
}

-- The transactions that the payloads of the log say are committed.
unfoldable pub committed_ids : List Payload → List String
committed_ids [] = []
committed_ids (payload ∷ log) =
    let others = committed_ids log in
    if is_text (get "state" payload) "committed"
    then (elim (as_text (get "transaction_id" payload)) [ none ↦ others | some id ↦ id ∷ others ])
    else others

-- `isinstance(transaction_id, str) and transaction_id in committed_transaction_ids`
abbrev pub is_committed : List String → Option String → Bool
is_committed committed none = bms_gui.Prelude.false
is_committed committed (some id) = str_in id committed

module _ (env : Env) where
  -- `_read_wal_envelopes`: a log that is not there reads as an empty one.
  unfoldable pub read_wal_envelopes : World → Result (List AppendRecord)
  read_wal_envelopes w =
      let status = env.verify_status wal (w.tables wal) in
      if is_empty (w.tables wal) || nat_eq status 0
      then ok (w.tables wal)
      else err (core_error status)

  unfoldable pub committed_transaction_ids : World → Result (List String)
  committed_transaction_ids w = do
    log ← read_wal_envelopes w
    ok (committed_ids (map (λ (r : AppendRecord). r.payload) log))

  -- A pending record that is not committed, with its id and payload where it has them.
  unfoldable pub pending_transaction :
      World → AppendRecord → Option String → Option Payload → Result PendingRecoveryTransaction
  pending_transaction w r (some id) (some payload) = do
    effects ← durable_side_effects env payload w
    ok (record {
      transaction_id = id;
      operation = string_or_unknown (as_text (get "operation" payload));
      correlation_id = string_or_unknown (some r.correlation_id);
      side_effects = effects;
      payload = payload;
    })
  pending_transaction w r _ _ = ok (malformed r)

  -- The body of the loop; the payload of a record of the log is a dictionary.
  unfoldable pub pending_record :
      List String → World → AppendRecord → Result (List PendingRecoveryTransaction)
  pending_record committed w r =
      let id = as_text (get "transaction_id" r.payload) in
      let found : Result (List PendingRecoveryTransaction) = (do
        transaction ← pending_transaction w r id (as_obj (get "payload" r.payload))
        ok (transaction ∷ [])) in
      if is_text (get "state" r.payload) "pending" && not (is_committed committed id)
      then found
      else ok []

  unfoldable pub pending_records :
      List String → World → List AppendRecord → Result (List PendingRecoveryTransaction)
  pending_records committed w [] = ok []
  pending_records committed w (r ∷ log) = do
    found ← pending_record committed w r
    others ← pending_records committed w log
    ok (found ++ others)

  -- `_pending_transactions`
  unfoldable pub pending_transactions : World → Result (List PendingRecoveryTransaction)
  pending_transactions w = do
    committed ← committed_transaction_ids w
    log ← read_wal_envelopes w
    pending_records committed w log

-- `{transaction.transaction_id: transaction for ...}.get(transaction_id)`: the last of them.
unfoldable pub find_pending :
    String → List PendingRecoveryTransaction → Option PendingRecoveryTransaction
find_pending id [] = none
find_pending id (t ∷ rest) = elim (find_pending id rest) [
  | some later ↦ some later
  | none ↦ if str_eq t.transaction_id id then some t else none
]
