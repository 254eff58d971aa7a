-- ===== src/Operations.antt =====
-- Histories of the services of src/bms/domain and of recovery over one store, and what holds after
-- any of them.
pub mod Calls
pub mod Kept
use bms_gui.Prelude.{String, ◌≡◌, true, [], ℤ}
use bms_gui.Dict.{Dict}
use bms_gui.Result.{ok}
use bms_gui.Exec.Keeps.{keeps_rules}
use bms_gui.Store.{stock_movements, journal_entries, Env, World, payloads}
use bms_gui.Accounting.Models.{Account, TrialBalance, is_balanced}
use bms_gui.Accounting.Balances.{trial_balance_of}
use bms_gui.Accounting.Balances.Balanced.{trial_balance_of-balanced}
use bms_gui.Inventory.Movements.NonNegative.{no_movements-IsStocked}
use bms_gui.Billing.Models.{SalesPostingAccounts}
use bms_gui.UseCases.{InventoryPostingAccounts}
use bms_gui.Recovery.Startup.{RecoveryEnv}
use bms_gui.Operations.Calls.{Operation, Books, after}
use bms_gui.Operations.Kept.{after-Books}

module _ (env : Env) (core : RecoveryEnv) (accounts : Dict String Account) (tax_rate : ℤ)
    (sales : SalesPostingAccounts) (stock : InventoryPostingAccounts) where
  -- The states that calls reach from a store whose journal and movements are empty.
  pub data Reachable : World → Type 0 where
    fresh :
        {w : World}
        → payloads journal_entries w ≡ []
        → payloads stock_movements w ≡ []
        → Reachable w
    call :
        {w : World} (operation : Operation)
        → Reachable w
        → Reachable (after env core accounts tax_rate sales stock operation w)

  -- In every state that calls of the services and of recovery reach, whether they returned or
  -- raised, from a store whose journal entries and stock movements are empty, every entry has one
  -- amount for both totals and the movements add up to a negative stock for no item. The services
  -- were made without `allow_negative_stock`.
  pub Reachable-Books : (w : World) → Reachable w → Books w
  Reachable-Books w (fresh no_entries no_movements) = record {
    balanced = record { holds = rw no_entries tt };
    stocked = record { holds = rw no_movements no_movements-IsStocked };
  }
  Reachable-Books _ (call {w} operation r) =
      after-Books env core accounts tax_rate sales stock operation w (Reachable-Books w r)

  -- In every state that calls reach from such a store, the trial balance of every period is found
  -- and balances.
  pub Reachable-trial_balance :
      (w : World) (period_id : String)
      → Reachable w
      → (t : TrialBalance) × (trial_balance_of period_id (payloads journal_entries w) ≡ ok t)
        × (is_balanced t ≡ true)
  Reachable-trial_balance w period_id r =
      trial_balance_of-balanced period_id _ (Reachable-Books w r).balanced.holds
