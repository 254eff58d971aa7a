-- ===== src/UseCases/Movements.antt =====
-- The journal of a stock movement.
use bms_gui.Prelude.{String, ◌≡◌, sym, ◌∙◌, [], ◌∷◌, ℤ, pos, ltb_ℤ, abs, inl, inr, Bool-cases}
use bms_gui.Accounting.Models.{debit_line, credit_line}
use bms_gui.Accounting.Validation.{debit_total, credit_total}
use bms_gui.Accounting.Validation.Totals.{pair-HasTotals}
use bms_gui.Inventory.Models.{StockMovementResult}
use bms_gui.UseCases.{InventoryPostingAccounts, movement_journal_lines}

-- The debits of the journal of a stock movement equal its credits, whether the movement raised or
-- lowered the value.
pub movement_journal_lines-balanced :
    (accounts : InventoryPostingAccounts) (result : StockMovementResult)
    → debit_total (movement_journal_lines accounts result)
      ≡ credit_total (movement_journal_lines accounts result)
unfolding movement_journal_lines
movement_journal_lines-balanced accounts result =
    elim (Bool-cases (ltb_ℤ (pos 0) result.value_delta_minor)) [
      | inl up ↦ rw up (
          pair_balanced accounts.inventory accounts.owner_equity "INR" "" ""
            result.value_delta_minor)
      | inr down ↦ rw down (
          pair_balanced accounts.inventory_adjustment_expense accounts.inventory "INR" "" ""
            (abs result.value_delta_minor))
    ]
  where
    pair_balanced :
        (from into currency memo memo' : String) (n : ℤ)
        → debit_total (debit_line from n currency memo ∷ credit_line into n currency memo' ∷ [])
          ≡ credit_total (debit_line from n currency memo ∷ credit_line into n currency memo' ∷ [])
    pair_balanced from into currency memo memo' n =
        let h = pair-HasTotals from into currency memo memo' n n in h.debit ∙ sym h.credit
