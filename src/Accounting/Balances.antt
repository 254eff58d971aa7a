-- ===== src/Accounting/Balances.antt =====
-- The balances that src/bms/domain/accounting/service.py reads off the posted journals.
pub mod Balanced
use bms_gui.Prelude.{
  String, Bool, not, Option, none, some, List, [], ◌∷◌, ℤ, pos, ◌+ℤ◌, ◌-ℤ◌, str_eq, if◌then◌else◌,
}
use bms_gui.Dict.{Dict, lookup, lookup_or, insert}
use bms_gui.Dict.Keys.{string_key, sorted_items}
use bms_gui.Fields.{◌&◌, truthy}
use bms_gui.Json.{Payload, get, is_text, as_text}
use bms_gui.Result.{
  Result, ok, err, accounting_error, key_error, ◌>>=◌, ◌>>◌, fail_if, fold_each, collect,
}
use bms_gui.Store.{Env, World, journal_entries, journal_lines, read_payloads}
use bms_gui.Accounting.Models.{
  AccountType, asset, liability, equity, revenue, expense, Account, LedgerBalance, TrialBalance,
}
use bms_gui.Accounting.Validation.{int_payload}

-- The body of the loop of `get_trial_balance`.
unfoldable pub add_entry : String → ℤ × ℤ → Payload → Result (ℤ × ℤ)
unfolding int_payload
add_entry period_id (debit_total, credit_total) payload =
    if is_text (get "period_id" payload) period_id
    then (do
      debit ← int_payload "debit_total_minor" payload
      credit ← int_payload "credit_total_minor" payload
      ok (debit_total +ℤ debit, credit_total +ℤ credit))
    else ok (debit_total, credit_total)

-- `get_trial_balance`, over the payloads of the journal entries.
unfoldable pub trial_balance_of : String → List Payload → Result TrialBalance
unfolding add_entry fold_each
trial_balance_of period_id entries = do
  totals ← fold_each (add_entry period_id) (pos 0, pos 0) entries
  ok (record { period_id = period_id; debit_total_minor = totals.0; credit_total_minor = totals.1 })

-- `_normal_balance`
unfoldable pub normal_balance : AccountType → ℤ → ℤ → ℤ
normal_balance asset debit_total credit_total = debit_total -ℤ credit_total
normal_balance expense debit_total credit_total = debit_total -ℤ credit_total
normal_balance _ debit_total credit_total = credit_total -ℤ debit_total

-- The totals of one account while the lines are read.
pub record AccountTotals : Type 0 where
  pub debit : ℤ
  pub credit : ℤ
  pub currency : String

module _ (accounts : Dict String Account) where
  -- A line of the period is added to the totals of its account.
  unfoldable pub add_ledger_line :
      Dict String AccountTotals → Payload → Result (Dict String AccountTotals)
  unfolding lookup lookup_or insert int_payload
  add_ledger_line totals payload = elim (as_text (get "account_code" payload)) [
    | none ↦ err (accounting_error "stored journal line account_code is not a string")
    | some account_code ↦ elim (lookup account_code accounts) [
      | none ↦
          err (accounting_error ("stored journal line has unknown account code " & account_code))
      | some account ↦ elim (as_text (get "currency" payload)) [
        | none ↦ err (accounting_error "stored journal line currency is invalid")
        | some currency ↦ do
          fail_if (not (truthy currency))
              (accounting_error "stored journal line currency is invalid")
          let found =
              lookup_or account_code (record { debit = pos 0; credit = pos 0; currency = currency })
                totals
          fail_if (not (str_eq found.currency currency)) (
              accounting_error
                ("stored journal lines for account " & account_code & " use multiple currencies"))
          debit ← int_payload "debit_minor" payload
          credit ← int_payload "credit_minor" payload
          ok (
              insert account_code
                (record {
                  debit = found.debit +ℤ debit;
                  credit = found.credit +ℤ credit;
                  currency = found.currency;
                })
                totals)
      ]
    ]
  ]

  -- The body of the first loop of `get_ledger_balances`.
  unfoldable pub add_period_line :
      String → Dict String AccountTotals → Payload → Result (Dict String AccountTotals)
  unfolding add_ledger_line
  add_period_line period_id totals payload =
      if is_text (get "period_id" payload) period_id
      then add_ledger_line totals payload
      else ok totals

  -- The balance of one account, with the sign of its type.
  unfoldable pub ledger_balance : String → String × AccountTotals → Result (String × LedgerBalance)
  unfolding normal_balance lookup
  ledger_balance period_id (account_code, totals) = elim (lookup account_code accounts) [
    | none ↦ err (key_error account_code)
    | some account ↦ ok (
      account_code,
      record {
        period_id = period_id;
        account_code = account.code;
        account_name = account.name;
        account_type = account.account_type;
        debit_total_minor = totals.debit;
        credit_total_minor = totals.credit;
        balance_minor = normal_balance account.account_type totals.debit totals.credit;
        currency = totals.currency;
      },
    )
  ]

  -- `get_ledger_balances`, over the payloads of the journal lines.
  unfoldable pub ledger_balances_of : String → List Payload → Result (Dict String LedgerBalance)
  unfolding add_period_line ledger_balance fold_each collect
  ledger_balances_of period_id lines = do
    totals ← fold_each (add_period_line period_id) [] lines
    collect (ledger_balance period_id) (sorted_items totals)

module _ (env : Env) where
  unfoldable pub get_trial_balance : String → World → Result TrialBalance
  get_trial_balance period_id w = read_payloads env journal_entries w >>= trial_balance_of period_id

  unfoldable pub get_ledger_balances :
      Dict String Account → String → World → Result (Dict String LedgerBalance)
  get_ledger_balances accounts period_id w =
      read_payloads env journal_lines w >>= ledger_balances_of accounts period_id
