-- ===== src/Tests/History.antt =====
-- A short history of calls.
use bms_gui.Prelude.{◌≡◌, refl, pos, true}
use bms_gui.Result.{ok}
use bms_gui.Store.{World, journal_entries, payloads}
use bms_gui.Accounting.Models.{TrialBalance, is_balanced, baseline_chart_of_accounts}
use bms_gui.Accounting.Balances.{trial_balance_of}
use bms_gui.Billing.Models.{sales_posting_accounts}
use bms_gui.UseCases.{inventory_posting_accounts}
use bms_gui.Operations.Calls.{Operation, post, register, move, sell, after, Books}
use bms_gui.Operations.{Reachable, fresh, call, Reachable-Books, Reachable-trial_balance}
use bms_gui.Tests.Setup.{env, core, new_world, opening_journal, tea, delivery, sale}

abbrev step : Operation → World → World
step =
    after env core baseline_chart_of_accounts (pos 1800) sales_posting_accounts
      inventory_posting_accounts

-- A journal, an item, a delivery and a sale.
abbrev last_world : World
last_world = step (sell sale) (
    step (move delivery) (
      step (register tea "ann" "2026-01-15T10:00:00Z" "c0")
        (step (post opening_journal) new_world)))

last_world-Reachable :
    Reachable env core baseline_chart_of_accounts
      (pos 1800)
      sales_posting_accounts
      inventory_posting_accounts
      last_world
last_world-Reachable = call (sell sale) (
    call (move delivery) (
      call (register tea "ann" "2026-01-15T10:00:00Z" "c0")
        (call (post opening_journal) (fresh refl refl))))

Reachable-Books_example : Books last_world
Reachable-Books_example =
    Reachable-Books env core baseline_chart_of_accounts (pos 1800) sales_posting_accounts
      inventory_posting_accounts last_world last_world-Reachable

Reachable-trial_balance_example :
    (t : TrialBalance) × (trial_balance_of "FY2026-01" (payloads journal_entries last_world) ≡ ok t)
    × (is_balanced t ≡ true)
Reachable-trial_balance_example =
    Reachable-trial_balance env core baseline_chart_of_accounts (pos 1800) sales_posting_accounts
      inventory_posting_accounts last_world "FY2026-01" last_world-Reachable
