-- ===== src/Accounting/Periods.antt =====
-- The closing of accounting periods, in src/bms/domain/accounting/service.py.
pub mod Closed
use bms_gui.Prelude.{
  ℕ, String, Bool, true, false, not, ◌&&◌, Option, none, some, List, [], ◌∷◌, str_eq, str_in,
  if◌then◌else◌,
}
use bms_gui.Fields.{◌&◌, truthy}
use bms_gui.Json.{Value, Payload, str, int, dict, get, is_text, as_text}
use bms_gui.Result.{Result, ok, accounting_error}
use bms_gui.Exec.{Exec, pure, raise, reads, gets, modify, raise_if, ◌>>=◌, ◌>>◌}
use bms_gui.Store.{
  Env, World, periods, uuid4_hex, utc_now, or_else, append_wal_pending, append_wal_committed,
  append_record, append_audit_record, append_business_event, read_payloads,
}
use bms_gui.Accounting.Models.{TrialBalance, is_balanced}
use bms_gui.Accounting.Balances.{get_trial_balance}

-- The body of the loop of `_load_closed_periods`.
abbrev pub add_closed : List String → Payload → List String
add_closed closed payload = elim (as_text (get "period_id" payload)) [
  | none ↦ closed
  | some period_id ↦ if is_text (get "status" payload) "closed" then period_id ∷ closed else closed
]

-- `_load_closed_periods`, over the payloads of the periods file.
abbrev pub closed_periods_of : List Payload → List String
closed_periods_of [] = []
closed_periods_of (payload ∷ rest) = add_closed (closed_periods_of rest) payload

unfoldable pub period_payload : String → String → String → String → TrialBalance → Payload
period_payload period_id closed_at actor_id correlation_id balance = dict (
    ("period_id", str period_id)
    ∷ ("status", str "closed")
    ∷ ("closed_at", str closed_at)
    ∷ ("actor_id", str actor_id)
    ∷ ("correlation_id", str correlation_id)
    ∷ ("trial_balance_debit_total_minor", int balance.debit_total_minor)
    ∷ ("trial_balance_credit_total_minor", int balance.credit_total_minor)
    ∷ [])

abbrev balance_totals : TrialBalance → List (String × Value)
balance_totals balance =
    ("debit_total_minor", int balance.debit_total_minor)
    ∷ ("credit_total_minor", int balance.credit_total_minor)
    ∷ []

module _ (env : Env) where
  unfoldable pub load_closed_periods : World → Result (List String)
  load_closed_periods w =
      bms_gui.Result.◌>>=◌ (read_payloads env periods w) λ ps. ok (closed_periods_of ps)

  -- `AccountingService.__init__`: the closed periods are read from the file, and some may be given.
  unfoldable pub start_accounting : List String → Exec World (Unit {0})
  start_accounting given = do
    loaded ← reads load_closed_periods
    modify (λ (w : World). record w { closed_periods = bms_gui.Prelude.◌++◌ given loaded })

  -- The writes of `close_period`.
  unfoldable pub write_period_closed :
      String → String → Option String → Option String → TrialBalance → Exec World (Unit {0})
  write_period_closed period_id actor_id given_at given_correlation balance = do
    closed_at ← or_else env given_at (utc_now env)
    correlation_id ← or_else env given_correlation (pure ("corr_close_period_" & period_id))
    hex ← uuid4_hex env
    let transaction_id = "txn_accounting_close_period_" & period_id & "_" & hex
    append_wal_pending env transaction_id closed_at actor_id correlation_id
        (dict (("operation", str "accounting.close_period") ∷ ("period_id", str period_id) ∷ []))
    append_record env periods "accounting.period_closed" actor_id correlation_id
        ("period_closed_" & period_id)
        (period_payload period_id closed_at actor_id correlation_id balance)
        (some ("period_closed_" & period_id)) (some closed_at)
    append_audit_record env "accounting.period_closed" actor_id "accounting_period" period_id
        correlation_id (some closed_at) (dict (balance_totals balance))
        (some ("audit_period_closed_" & period_id))
    append_business_event env "accounting.period_closed.v1" actor_id
        (dict (("period_id", str period_id) ∷ balance_totals balance)) (some correlation_id)
        (some closed_at) (some ("event_period_closed_" & period_id))
    append_wal_committed env transaction_id closed_at actor_id correlation_id
    modify (λ (w : World). record w { closed_periods = period_id ∷ w.closed_periods })

  -- What `close_period` does with a period that is not closed yet.
  unfoldable pub close_open_period :
      String → String → Option String → Option String → Exec World (Unit {0})
  close_open_period period_id actor_id closed_at correlation_id = do
    balance ← reads (get_trial_balance env period_id)
    raise_if (not (is_balanced balance))
        (accounting_error ("cannot close unbalanced period " & period_id))
    write_period_closed period_id actor_id closed_at correlation_id balance

  unfoldable pub close_period :
      String → String → Option String → Option String → Exec World (Unit {0})
  close_period period_id actor_id closed_at correlation_id = do
    raise_if (not (truthy period_id)) (accounting_error "period_id is required")
    already ← gets (λ (w : World). str_in period_id w.closed_periods)
    if already then pure tt else close_open_period period_id actor_id closed_at correlation_id
