-- ===== src/Accounting/Validation.antt =====
-- The checks of src/bms/domain/accounting/service.py before a journal is posted.
pub mod Accepted
pub mod Totals
use bms_gui.Prelude.{
  ℕ, String, Bool, not, ◌&&◌, ◌||◌, Option, none, some, List, [], ◌∷◌, map, length, ℤ, pos, ◌+ℤ◌,
  eqb_ℤ, ltb_ℤ, ltb, nat_eq, str_in, sum, is_empty, if◌then◌else◌,
}
use bms_gui.Dict.{Dict, lookup}
use bms_gui.Dict.Keys.{string_key}
use bms_gui.Fields.{◌&◌, truthy, require_fields, int_field}
use bms_gui.Json.{Payload, get, is_text}
use bms_gui.Result.{Result, ok, err, accounting_error, ◌>>=◌, ◌>>◌, fail_if, fold_each, check_each}
use bms_gui.Accounting.Models.{Account, JournalLine, PostJournalCommand}

-- `_int_payload`
unfoldable pub int_payload : String → Payload → Result ℤ
unfolding int_field
int_payload = int_field accounting_error "stored payload field "

-- `{line.currency for line in lines}`, in the order of first use.
abbrev pub currencies : List JournalLine → List String
currencies [] = []
currencies (line ∷ lines) =
    let rest = currencies lines in if str_in line.currency rest then rest else line.currency ∷ rest

module _ (accounts : Dict String Account) where
  -- `_validate_line`
  unfoldable pub validate_line : JournalLine → Result (Unit {0})
  unfolding lookup
  validate_line line = elim (lookup line.account_code accounts) [
    | none ↦ err (accounting_error ("unknown account code " & line.account_code))
    | some account ↦ do
      fail_if (not account.active) (accounting_error ("inactive account code " & line.account_code))
      fail_if (not (truthy line.currency)) (accounting_error "journal line currency is required")
      fail_if (ltb_ℤ line.debit_minor (pos 0) || ltb_ℤ line.credit_minor (pos 0))
          (accounting_error "journal line amounts cannot be negative")
      fail_if (eqb_ℤ line.debit_minor (pos 0) && eqb_ℤ line.credit_minor (pos 0))
          (accounting_error "journal line must carry a debit or credit amount")
      fail_if (ltb_ℤ (pos 0) line.debit_minor && ltb_ℤ (pos 0) line.credit_minor)
          (accounting_error "journal line cannot have both debit and credit amounts")
  ]

  -- The body of the loop that validates the lines and adds up their amounts.
  unfoldable pub add_line : ℤ × ℤ → JournalLine → Result (ℤ × ℤ)
  add_line (debit_total, credit_total) line = do
    validate_line line
    ok (debit_total +ℤ line.debit_minor, credit_total +ℤ line.credit_minor)

  -- `_validate_post_command`, given the periods that are closed.
  unfoldable pub validate_post_command : List String → PostJournalCommand → Result (Unit {0})
  validate_post_command closed_periods command = do
    require_fields accounting_error "missing required journal field(s): " (
        ("journal_id", command.journal_id)
        ∷ ("period_id", command.period_id)
        ∷ ("timestamp", command.timestamp)
        ∷ ("actor_id", command.actor_id)
        ∷ ("source_module", command.source_module)
        ∷ ("source_document_id", command.source_document_id)
        ∷ ("correlation_id", command.correlation_id)
        ∷ ("description", command.description)
        ∷ [])
    fail_if (str_in command.period_id closed_periods)
        (accounting_error ("period " & command.period_id & " is closed"))
    fail_if (ltb (length command.lines) 2)
        (accounting_error "journal must contain at least two lines")
    fail_if (not (nat_eq (length (currencies command.lines)) 1))
        (accounting_error "journal lines must use one currency")
    totals ← fold_each add_line (pos 0, pos 0) command.lines
    fail_if (not (eqb_ℤ totals.0 totals.1)) (accounting_error "journal debits must equal credits")

-- `_reject_duplicate_journal`, over the payloads of the posted entries.
unfoldable pub reject_duplicate_journal : String → List Payload → Result (Unit {0})
unfolding check_each
reject_duplicate_journal journal_id entries = check_each entries λ payload.
    fail_if (is_text (get "journal_id" payload) journal_id)
      (accounting_error ("journal " & journal_id & " is already posted"))

abbrev pub debit_total : List JournalLine → ℤ
debit_total lines = sum (map (λ (l : JournalLine). l.debit_minor) lines)

abbrev pub credit_total : List JournalLine → ℤ
credit_total lines = sum (map (λ (l : JournalLine). l.credit_minor) lines)
