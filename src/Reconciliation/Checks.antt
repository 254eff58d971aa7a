-- ===== src/Reconciliation/Checks.antt =====
-- What a report that passed says.
use bms_gui.Prelude.{
  ◌≡◌, refl, sym, ap, subst, not, Option, Bool, true, false, ◌&&◌, List, [], ◌∷◌, ℤ, pos, ◌-ℤ◌,
  eqb_ℤ, eqb_ℤ_iff, String, arith, int_laws, All,
}
use bms_gui.Result.{ok-eq, ok, >>=-eq-ok, guard-ok}
use bms_gui.Fields.{truthy}
use bms_gui.Exec.{reads}
use bms_gui.Exec.Outcome as Outcome
use bms_gui.Exec.Outcome.{raise_if-ok}
use bms_gui.Accounting.Models.{baseline_chart_of_accounts}
use bms_gui.Accounting.Balances.{get_ledger_balances}
use bms_gui.Accounting.Port.{is_period_closed}
use bms_gui.Accounting.Periods.{load_closed_periods}
use bms_gui.Accounting.Periods.Closed.{close_period-closed}
use bms_gui.Inventory.Stock.{get_inventory_value_delta_minor}
use bms_gui.UseCases.{close_reconciled_period}
use bms_gui.Store.{Env, World, invoices, refunds}
use bms_gui.Reconciliation.{
  ReconciliationCheck, ReconciliationReport, all_passed, check, get_reconciliation_report,
  period_total, invoice_cogs_minor, refund_cogs_minor,
}

-- A check whose flag tells whether the two amounts agree.
pub record IsChecked (c : ReconciliationCheck) : Type 0 where
  pub difference : c.difference_minor ≡ c.actual_minor -ℤ c.expected_minor
  pub sound : c.passed ≡ true → c.expected_minor ≡ c.actual_minor
  pub complete : c.expected_minor ≡ c.actual_minor → c.passed ≡ true

diff_zero : (a b : ℤ) → b -ℤ a ≡ pos 0 → a ≡ b
diff_zero a b h =
    let p = ap bms_gui.Prelude.pos_part h in
    let n = ap bms_gui.Prelude.neg_part h in omega (int_laws, p, n)

diff_same : (a b : ℤ) → a ≡ b → b -ℤ a ≡ pos 0
diff_same a b h =
    let p = ap bms_gui.Prelude.pos_part h in
    let n = ap bms_gui.Prelude.neg_part h in omega (int_laws, p, n)

check-IsChecked : (name : String) (expected actual : ℤ) → IsChecked (check name expected actual)
unfolding check
check-IsChecked name expected actual = record {
  difference = refl;
  sound = λ h. diff_zero expected actual ((eqb_ℤ_iff (actual -ℤ expected) (pos 0)).0 h);
  complete = λ h. (eqb_ℤ_iff (actual -ℤ expected) (pos 0)).1 (diff_same expected actual h);
}

-- The amounts agree.
abbrev pub Agrees : ReconciliationCheck → Type 0
Agrees c = c.expected_minor ≡ c.actual_minor

all_passed-Agrees :
    (checks : List ReconciliationCheck)
    → All IsChecked checks
    → all_passed checks ≡ true
    → All Agrees checks
all_passed-Agrees [] all h = tt
all_passed-Agrees (c ∷ checks) (k, all) h =
    (k.sound (ground arith), all_passed-Agrees checks all (ground arith))

module _ (env : Env) where
  report-IsChecked :
      (period_id : String) (w : World) {report : ReconciliationReport}
      → get_reconciliation_report env period_id w ≡ ok report
      → All IsChecked report.checks
  unfolding get_reconciliation_report
  report-IsChecked period_id w h =
      let (_, h0) = guard-ok (not (truthy period_id)) _ _ h in
      let (_, _, h1) = >>=-eq-ok (load_closed_periods env w) _ h0 in
      let (_, _, h2) =
        >>=-eq-ok (get_ledger_balances env baseline_chart_of_accounts period_id w) _ h1 in
      let (_, _, h3) = >>=-eq-ok (get_inventory_value_delta_minor env period_id w) _ h2 in
      let (_, _, h4) = >>=-eq-ok (period_total env invoices "tax_minor" period_id w) _ h3 in
      let (_, _, h5) = >>=-eq-ok (period_total env refunds "tax_minor" period_id w) _ h4 in
      let (_, _, h6) = >>=-eq-ok (period_total env invoices "subtotal_minor" period_id w) _ h5 in
      let (_, _, h7) = >>=-eq-ok (period_total env refunds "subtotal_minor" period_id w) _ h6 in
      let (_, _, h8) = >>=-eq-ok (invoice_cogs_minor env period_id w) _ h7 in
      let (_, _, h9) = >>=-eq-ok (refund_cogs_minor env period_id w) _ h8 in
      subst (λ (r : ReconciliationReport). All IsChecked r.checks) (ok-eq h9)
        (
          check-IsChecked _ _ _,
          (
            check-IsChecked _ _ _,
            (check-IsChecked _ _ _, (check-IsChecked _ _ _, (check-IsChecked _ _ _, tt))),
          ),
        )

  -- What a call of `close_reconciled_period` that returned rests on.
  pub record IsReconciled (period_id : String) (w w' : World) : Type 0 where
    pub report : ReconciliationReport
    pub found : get_reconciliation_report env period_id w ≡ ok report
    pub agree : All Agrees report.checks
    pub closed : is_period_closed period_id w' ≡ true

  -- Where `ClosePeriodUseCase.execute` returned, the report of the period was found, the expected
  -- and the actual amount of each of its checks are equal, and the period is closed.
  pub close_reconciled_period-IsReconciled :
      (period_id actor_id : String) (closed_at correlation_id : Option String) (w : World)
      {w' : World}
      → close_reconciled_period env period_id actor_id closed_at correlation_id w ≡ (ok tt, w')
      → IsReconciled period_id w w'
  unfolding close_reconciled_period reads
  close_reconciled_period-IsReconciled period_id actor_id closed_at correlation_id w h =
      let (r, found, h1) =
        Outcome.>>=-eq-ok (reads (get_reconciliation_report env period_id)) _ w h in
      let (passed, h2) = raise_if-ok (not (all_passed r.checks)) _ _ w h1 in
      record {
        report = r;
        found = found;
        agree = all_passed-Agrees r.checks (report-IsChecked period_id w found) (ground arith);
        closed = close_period-closed env period_id actor_id closed_at correlation_id w h2;
      }
