-- ===== src/Reporting/Ledger.antt =====
-- The reports of src/bms/domain/reporting/service.py on the ledger: `get_ledger_report`,
-- `get_profit_and_loss_report`, `get_tax_report` and `get_trial_balance_report`.
pub mod Profit
use bms_gui.Prelude.{
  String, Bool, not, Option, none, some, List, [], ◌∷◌, map, ℤ, pos, ◌+ℤ◌, ◌-ℤ◌, sum, str_eq,
  if◌then◌else◌,
}
use bms_gui.Dict.{Dict, lookup, values}
use bms_gui.Dict.Keys.{string_key}
use bms_gui.Result.{Result, ok, ◌>>=◌}
use bms_gui.Store.{Env, World}
use bms_gui.Accounting.Models.{
  AccountType, asset, liability, equity, revenue, expense, Account, LedgerBalance, TrialBalance,
  is_balanced, baseline_chart_of_accounts,
}
use bms_gui.Accounting.Balances.{get_trial_balance, get_ledger_balances}
use bms_gui.Reporting.Models.{
  CurrencyTotals, LedgerReportRow, LedgerReport, ProfitAndLossReport, TaxReport, TrialBalanceReport,
}
use bms_gui.Reporting.Availability.{at_least_zero}
use bms_gui.Reporting.Documents.{get_invoice_report}

-- The value of the enumeration.
abbrev pub account_type_value : AccountType → String
account_type_value asset = "asset"
account_type_value liability = "liability"
account_type_value equity = "equity"
account_type_value revenue = "revenue"
account_type_value expense = "expense"

unfoldable pub ledger_row : LedgerBalance → LedgerReportRow
ledger_row balance = record {
  period_id = balance.period_id;
  account_code = balance.account_code;
  account_name = balance.account_name;
  account_type = account_type_value balance.account_type;
  debit_total_minor = balance.debit_total_minor;
  credit_total_minor = balance.credit_total_minor;
  balance_minor = balance.balance_minor;
  currency = balance.currency;
}

-- What the loop of `get_profit_and_loss_report` adds up.
pub record ProfitTotals : Type 0 where
  pub revenue_minor : ℤ
  pub contra_revenue_minor : ℤ
  pub expense_minor : ℤ
  pub cogs_minor : ℤ

abbrev pub no_profit : ProfitTotals
no_profit = record {
  revenue_minor = pos 0;
  contra_revenue_minor = pos 0;
  expense_minor = pos 0;
  cogs_minor = pos 0;
}

abbrev pub add_expense : String → ℤ → ProfitTotals → ProfitTotals
add_expense account_code net_expense t = record t {
  expense_minor = t.expense_minor +ℤ net_expense;
  cogs_minor = if str_eq account_code "5000" then t.cogs_minor +ℤ net_expense else t.cogs_minor;
}

abbrev pub add_by_type : AccountType → LedgerBalance → ProfitTotals → ProfitTotals
add_by_type revenue b t = record t {
  revenue_minor = t.revenue_minor +ℤ b.credit_total_minor;
  contra_revenue_minor = t.contra_revenue_minor +ℤ b.debit_total_minor;
}
add_by_type expense b t =
    add_expense b.account_code (at_least_zero (b.debit_total_minor -ℤ b.credit_total_minor)) t
add_by_type _ b t = t

-- The body of the loop.
unfoldable pub add_profit : String → ProfitTotals → LedgerBalance → ProfitTotals
add_profit currency t b = if str_eq b.currency currency then add_by_type b.account_type b t else t

unfoldable pub profit_totals : String → ProfitTotals → List LedgerBalance → ProfitTotals
profit_totals currency t [] = t
profit_totals currency t (b ∷ bs) = profit_totals currency (add_profit currency t b) bs

-- The rest of `get_profit_and_loss_report`.
unfoldable pub profit_report_of : String → String → ProfitTotals → ProfitAndLossReport
profit_report_of period_id currency t =
    let net_revenue = t.revenue_minor -ℤ t.contra_revenue_minor in
    let operating_expense = t.expense_minor -ℤ t.cogs_minor in
    let gross_profit = net_revenue -ℤ t.cogs_minor in
    record {
      period_id = period_id;
      currency = currency;
      revenue_minor = t.revenue_minor;
      contra_revenue_minor = t.contra_revenue_minor;
      net_revenue_minor = net_revenue;
      cogs_minor = t.cogs_minor;
      gross_profit_minor = gross_profit;
      expense_minor = t.expense_minor;
      operating_expense_minor = operating_expense;
      net_income_minor = gross_profit -ℤ operating_expense;
    }

-- `sum(total.tax_minor for total in totals if total.currency == currency)`
unfoldable pub tax_collected : String → List CurrencyTotals → ℤ
tax_collected currency [] = pos 0
tax_collected currency (total ∷ totals) =
    let others = tax_collected currency totals in
    if str_eq total.currency currency then total.tax_minor +ℤ others else others

-- The balance of the account of the tax, if it is kept in the currency.
unfoldable pub tax_payable_balance : String → Dict String LedgerBalance → ℤ
tax_payable_balance currency balances = elim (lookup "2100" balances) [
  | none ↦ pos 0
  | some balance ↦ if str_eq balance.currency currency then balance.balance_minor else pos 0
]

module _ (env : Env) where
  -- `AccountingService(self.store)` has the baseline chart.
  abbrev pub balances : String → World → Result (Dict String LedgerBalance)
  balances period_id w = get_ledger_balances env baseline_chart_of_accounts period_id w

  unfoldable pub get_ledger_report : String → World → Result LedgerReport
  get_ledger_report period_id w = do
    found ← balances period_id w
    ok (record { period_id = period_id; rows = map ledger_row (values found) })

  unfoldable pub get_profit_and_loss_report : String → String → World → Result ProfitAndLossReport
  get_profit_and_loss_report period_id currency w = do
    found ← balances period_id w
    ok (profit_report_of period_id currency (profit_totals currency no_profit (values found)))

  unfoldable pub get_tax_report : String → String → World → Result TaxReport
  get_tax_report period_id currency w = do
    invoice_report ← get_invoice_report env (some period_id) w
    found ← balances period_id w
    ok (record {
      period_id = period_id;
      currency = currency;
      invoice_tax_collected_minor = tax_collected currency invoice_report.totals;
      tax_payable_balance_minor = tax_payable_balance currency found;
    })

  unfoldable pub get_trial_balance_report : String → World → Result TrialBalanceReport
  get_trial_balance_report period_id w = do
    trial_balance ← get_trial_balance env period_id w
    ok (record {
      period_id = trial_balance.period_id;
      debit_total_minor = trial_balance.debit_total_minor;
      credit_total_minor = trial_balance.credit_total_minor;
      is_balanced = is_balanced trial_balance;
    })
