-- ===== src/Accounting/Posting.antt =====
-- `post_journal` of src/bms/domain/accounting/service.py.
pub mod Frame
pub mod Balanced
pub mod Written
use bms_gui.Prelude.{ℕ, String, Option, none, some, List, [], ◌∷◌, ℤ, pos}
use bms_gui.Dict.{Dict}
use bms_gui.Fields.{◌&◌, enumerate, decimal}
use bms_gui.Json.{Value, Payload, str, int, dict}
use bms_gui.Result.{Result, ok, err, index_error}
use bms_gui.Exec.{Exec, pure, reads, gets, lift, for_each, ◌>>=◌, ◌>>◌}
use bms_gui.Store.{
  Env, World, journal_entries, journal_lines, uuid4_hex, append_wal_pending, append_wal_committed,
  append_record, append_audit_record, append_business_event, read_payloads, payloads,
}
use bms_gui.Accounting.Models.{Account, JournalLine, PostJournalCommand, JournalResult}
use bms_gui.Accounting.Validation.{
  validate_post_command, reject_duplicate_journal, debit_total, credit_total,
}

-- `command.lines[0].currency`
abbrev pub first_currency : List JournalLine → Result String
first_currency [] = err index_error
first_currency (line ∷ lines) = ok line.currency

-- The payload of a journal entry.
unfoldable pub entry_payload : PostJournalCommand → ℤ → ℤ → String → Payload
entry_payload command debits credits currency = dict (
    ("journal_id", str command.journal_id)
    ∷ ("period_id", str command.period_id)
    ∷ ("timestamp", str command.timestamp)
    ∷ ("actor_id", str command.actor_id)
    ∷ ("source_module", str command.source_module)
    ∷ ("source_document_id", str command.source_document_id)
    ∷ ("correlation_id", str command.correlation_id)
    ∷ ("description", str command.description)
    ∷ ("debit_total_minor", int debits)
    ∷ ("credit_total_minor", int credits)
    ∷ ("currency", str currency)
    ∷ [])

-- `_line_payload`
unfoldable pub line_payload : PostJournalCommand → ℕ × JournalLine → Payload
line_payload command (index, line) = dict (
    ("journal_id", str command.journal_id)
    ∷ ("line_no", int (pos index))
    ∷ ("period_id", str command.period_id)
    ∷ ("account_code", str line.account_code)
    ∷ ("debit_minor", int line.debit_minor)
    ∷ ("credit_minor", int line.credit_minor)
    ∷ ("currency", str line.currency)
    ∷ ("memo", str line.memo)
    ∷ ("source_document_id", str command.source_document_id)
    ∷ ("correlation_id", str command.correlation_id)
    ∷ [])

module _ (env : Env) (accounts : Dict String Account) where
  -- The checks, up to the first write.
  unfoldable pub check_journal : PostJournalCommand → World → Result (Unit {0})
  check_journal command w =
      bms_gui.Result.◌>>◌ (validate_post_command accounts w.closed_periods command) (
        bms_gui.Result.◌>>=◌ (read_payloads env journal_entries w)
          (reject_duplicate_journal command.journal_id))

  -- The record of the entry.
  unfoldable pub append_entry : PostJournalCommand → ℤ → ℤ → String → Exec World ℕ
  append_entry command debits credits currency =
      append_record env journal_entries "accounting.journal_entry" command.actor_id
        command.correlation_id ("journal_entry_" & command.journal_id)
        (entry_payload command debits credits currency) (some ("jrn_" & command.journal_id))
        (some command.timestamp)

  -- The record of one line, by its place in the journal.
  unfoldable pub append_line : PostJournalCommand → ℕ × JournalLine → Exec World (Unit {0})
  append_line command (index, line) = do
    append_record env journal_lines "accounting.journal_line" command.actor_id
        command.correlation_id ("journal_line_" & command.journal_id & "_" & decimal index)
        (line_payload command (index, line))
        (some ("jln_" & command.journal_id & "_" & decimal index)) (some command.timestamp)
    pure tt

  unfoldable pub append_journal_audit : PostJournalCommand → ℤ → ℤ → String → Exec World ℕ
  append_journal_audit command debits credits currency =
      append_audit_record env "accounting.journal_posted" command.actor_id "journal"
        command.journal_id command.correlation_id (some command.timestamp)
        (dict (
          ("period_id", str command.period_id)
          ∷ ("source_module", str command.source_module)
          ∷ ("source_document_id", str command.source_document_id)
          ∷ ("debit_total_minor", int debits)
          ∷ ("credit_total_minor", int credits)
          ∷ ("currency", str currency)
          ∷ []))
        (some ("audit_journal_posted_" & command.journal_id))

  unfoldable pub append_journal_event : PostJournalCommand → ℤ → ℤ → String → Exec World ℕ
  append_journal_event command debits credits currency =
      append_business_event env "accounting.journal_posted.v1" command.actor_id
        (dict (
          ("journal_id", str command.journal_id)
          ∷ ("period_id", str command.period_id)
          ∷ ("source_document_id", str command.source_document_id)
          ∷ ("debit_total_minor", int debits)
          ∷ ("credit_total_minor", int credits)
          ∷ ("currency", str currency)
          ∷ []))
        (some command.correlation_id) (some command.timestamp) none

  -- The writes, between a pending and a committed record of the write-ahead log.
  unfoldable pub write_journal : PostJournalCommand → ℤ → ℤ → String → Exec World JournalResult
  write_journal command debits credits currency = do
    hex ← uuid4_hex env
    let transaction_id = "txn_accounting_" & command.journal_id & "_" & hex
    append_wal_pending env transaction_id command.timestamp command.actor_id command.correlation_id
        (dict (
          ("operation", str "accounting.post_journal")
          ∷ ("journal_id", str command.journal_id)
          ∷ ("period_id", str command.period_id)
          ∷ ("source_document_id", str command.source_document_id)
          ∷ []))
    append_entry command debits credits currency
    for_each (enumerate 1 command.lines) (append_line command)
    append_journal_audit command debits credits currency
    append_journal_event command debits credits currency
    append_wal_committed env transaction_id command.timestamp command.actor_id
        command.correlation_id
    pure (record {
      journal_id = command.journal_id;
      debit_total_minor = debits;
      credit_total_minor = credits;
      currency = currency;
    })

  unfoldable pub post_journal : PostJournalCommand → Exec World JournalResult
  post_journal command = do
    reads (check_journal command)
    currency ← lift (first_currency command.lines)
    write_journal command (debit_total command.lines) (credit_total command.lines) currency
