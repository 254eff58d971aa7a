-- ===== src/Tests/Ledger.antt =====
-- Runs of the accounting service.
use bms_gui.Prelude.{◌≡◌, refl, pos, false, All, none}
use bms_gui.Result.{Error, ok, err}
use bms_gui.Store.{World, journal_entries, payloads}
use bms_gui.Accounting.Models.{JournalResult, baseline_chart_of_accounts}
use bms_gui.Accounting.Posting.Balanced.{IsBalancedEntry, post_journal-balanced}
use bms_gui.Accounting.Periods.{close_period}
use bms_gui.Accounting.Periods.Closed.{
  IsClosed, close_period-IsClosed, close_period-closed, post_journal-closed,
}
use bms_gui.Accounting.Port.{is_period_closed}
use bms_gui.UseCases.{close_reconciled_period}
use bms_gui.Reconciliation.Checks.{IsReconciled, close_reconciled_period-IsReconciled}
use bms_gui.Accounting.Posting.{post_journal}
use bms_gui.Accounting.Posting.Written.{IsPosted, post_journal-IsPosted}
use bms_gui.Tests.Setup.{runs, env, new_world, opening_journal}

abbrev pub posted_world : World
posted_world = (post_journal env baseline_chart_of_accounts opening_journal new_world).1

abbrev posted_result : JournalResult
posted_result = record {
  journal_id = "j1";
  debit_total_minor = pos 500;
  credit_total_minor = pos 500;
  currency = "INR";
}

posted_run :
    post_journal env baseline_chart_of_accounts opening_journal new_world
    ≡ (ok posted_result, posted_world)
unfolding runs
posted_run = refl

post_journal-IsPosted_example :
    IsPosted env baseline_chart_of_accounts opening_journal new_world posted_result posted_world
post_journal-IsPosted_example =
    post_journal-IsPosted env baseline_chart_of_accounts opening_journal new_world posted_run

post_journal-balanced_example : All IsBalancedEntry (
    payloads journal_entries
      (post_journal env baseline_chart_of_accounts opening_journal new_world).1)
post_journal-balanced_example =
    post_journal-balanced env baseline_chart_of_accounts opening_journal new_world tt

-- The end of the period of the posted journal.
abbrev closed_world : World
closed_world = (close_period env "FY2026-01" "ann" none none posted_world).1

closed_run : close_period env "FY2026-01" "ann" none none posted_world ≡ (ok tt, closed_world)
unfolding runs
closed_run = refl

open_before : is_period_closed "FY2026-01" posted_world ≡ false
unfolding runs
open_before = refl

close_period-IsClosed_example : IsClosed env "FY2026-01" posted_world closed_world
close_period-IsClosed_example =
    close_period-IsClosed env "FY2026-01" "ann" none none posted_world open_before closed_run

post_journal-closed_example :
    (e : Error) × (post_journal env baseline_chart_of_accounts opening_journal closed_world
      ≡ (err e, closed_world))
post_journal-closed_example =
    post_journal-closed env baseline_chart_of_accounts opening_journal closed_world
      (close_period-closed env "FY2026-01" "ann" none none posted_world closed_run)

-- A period that nothing was posted to agrees with the empty files.
abbrev reconciled_world : World
reconciled_world = (close_reconciled_period env "FY2026-01" "ann" none none new_world).1

reconciled_run :
    close_reconciled_period env "FY2026-01" "ann" none none new_world ≡ (ok tt, reconciled_world)
unfolding runs
reconciled_run = refl

close_reconciled_period-IsReconciled_example :
    IsReconciled env "FY2026-01" new_world reconciled_world
close_reconciled_period-IsReconciled_example =
    close_reconciled_period-IsReconciled env "FY2026-01" "ann" none none new_world reconciled_run
