-- ===== src/Reporting/Ledger/Profit.antt =====
-- The profit of `get_profit_and_loss_report` as a sum over the balances.
use bms_gui.Prelude.{
  String, ◌≡◌, sym, ◌∙◌, ap, List, [], ◌∷◌, ℤ, pos, ◌+ℤ◌, ◌-ℤ◌, neg, int_laws, str_eq, inl, inr,
  Bool-cases, if◌then◌else◌,
}
use bms_gui.Dict.{Dict, values}
use bms_gui.Result.{ok, ok-eq, >>=-eq-ok}
use bms_gui.Store.{Env, World}
use bms_gui.Accounting.Models.{
  AccountType, asset, liability, equity, revenue, expense, LedgerBalance,
  baseline_chart_of_accounts,
}
use bms_gui.Accounting.Balances.{get_ledger_balances}
use bms_gui.Reporting.Models.{ProfitAndLossReport}
use bms_gui.Reporting.Availability.{at_least_zero}
use bms_gui.Reporting.Ledger.{
  ProfitTotals, no_profit, add_by_type, add_profit, profit_totals, profit_report_of, balances,
  get_profit_and_loss_report,
}

-- What an account adds to the profit: its credits less its debits for revenue, and for expenses
-- what its debits are above its credits, taken off.
abbrev pub profit_by_type : AccountType → LedgerBalance → ℤ
profit_by_type revenue b = b.credit_total_minor -ℤ b.debit_total_minor
profit_by_type expense b = neg (at_least_zero (b.debit_total_minor -ℤ b.credit_total_minor))
profit_by_type _ b = pos 0

abbrev pub profit_of : String → LedgerBalance → ℤ
profit_of currency b = if str_eq b.currency currency then profit_by_type b.account_type b else pos 0

unfoldable pub total_profit : String → List LedgerBalance → ℤ
total_profit currency [] = pos 0
total_profit currency (b ∷ bs) = profit_of currency b +ℤ total_profit currency bs

-- The profit of the totals.
abbrev net : ProfitTotals → ℤ
net t = t.revenue_minor -ℤ t.contra_revenue_minor -ℤ t.expense_minor

add_revenue-net : (r c x y e : ℤ) → r +ℤ y -ℤ (c +ℤ x) -ℤ e ≡ r -ℤ c -ℤ e +ℤ (y -ℤ x)
add_revenue-net r c x y e = omega int_laws

add_expense-net : (r c e x : ℤ) → r -ℤ c -ℤ (e +ℤ x) ≡ r -ℤ c -ℤ e +ℤ neg x
add_expense-net r c e x = omega int_laws

zero-net : (a : ℤ) → a ≡ a +ℤ pos 0
zero-net a = omega int_laws

add_by_type-net :
    (type : AccountType) (b : LedgerBalance) (t : ProfitTotals)
    → net (add_by_type type b t) ≡ net t +ℤ profit_by_type type b
add_by_type-net revenue b t =
    add_revenue-net t.revenue_minor t.contra_revenue_minor b.debit_total_minor b.credit_total_minor
      t.expense_minor
add_by_type-net expense b t =
    add_expense-net t.revenue_minor t.contra_revenue_minor t.expense_minor
      (at_least_zero (b.debit_total_minor -ℤ b.credit_total_minor))
add_by_type-net asset b t = zero-net (net t)
add_by_type-net liability b t = zero-net (net t)
add_by_type-net equity b t = zero-net (net t)

add_profit-net :
    (currency : String) (t : ProfitTotals) (b : LedgerBalance)
    → net (add_profit currency t b) ≡ net t +ℤ profit_of currency b
unfolding add_profit
add_profit-net currency t b = elim (Bool-cases (str_eq b.currency currency)) [
  | inl same ↦ rw same (add_by_type-net b.account_type b t)
  | inr other ↦ rw other (zero-net (net t))
]

plus_assoc : (a b c : ℤ) → a +ℤ b +ℤ c ≡ a +ℤ (b +ℤ c)
plus_assoc a b c = omega int_laws

profit_totals-net :
    (currency : String) (t : ProfitTotals) (bs : List LedgerBalance)
    → net (profit_totals currency t bs) ≡ net t +ℤ total_profit currency bs
unfolding profit_totals total_profit
profit_totals-net currency t [] = zero-net (net t)
profit_totals-net currency t (b ∷ bs) =
    profit_totals-net currency (add_profit currency t b) bs
    ∙ ap (λ n. n +ℤ total_profit currency bs) (add_profit-net currency t b)
    ∙ plus_assoc (net t) (profit_of currency b) (total_profit currency bs)

from_zero : (a : ℤ) → pos 0 -ℤ pos 0 -ℤ pos 0 +ℤ a ≡ a
from_zero a = omega int_laws

cogs_cancel : (r c g e : ℤ) → r -ℤ c -ℤ g -ℤ (e -ℤ g) ≡ r -ℤ c -ℤ e
cogs_cancel r c g e = omega int_laws

net_income-net :
    (period_id currency : String) (t : ProfitTotals)
    → (profit_report_of period_id currency t).net_income_minor ≡ net t
unfolding profit_report_of
net_income-net period_id currency t =
    cogs_cancel t.revenue_minor t.contra_revenue_minor t.cogs_minor t.expense_minor

module _ (env : Env) where
  -- Where `get_profit_and_loss_report` returned, the ledger balances of the period were found, and
  -- the net income is the sum over those in the currency of credits less debits for revenue, less
  -- what the debits are above the credits for expenses.
  pub get_profit_and_loss_report-total_profit :
      (period_id currency : String) (w : World) {report : ProfitAndLossReport}
      → get_profit_and_loss_report env period_id currency w ≡ ok report
      → (found : Dict String LedgerBalance) × (get_ledger_balances env baseline_chart_of_accounts
            period_id w
          ≡ ok found)
        × (report.net_income_minor ≡ total_profit currency (values found))
  unfolding get_profit_and_loss_report
  get_profit_and_loss_report-total_profit period_id currency w h =
      let (found, read, e) = >>=-eq-ok (balances env period_id w) _ h in
      (
        found,
        read,
        ap (λ (r : ProfitAndLossReport). r.net_income_minor) (sym (ok-eq e))
            ∙ net_income-net period_id currency (profit_totals currency no_profit (values found))
            ∙ profit_totals-net currency no_profit (values found)
            ∙ from_zero (total_profit currency (values found)),
      )
