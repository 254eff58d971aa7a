-- ===== src/Inventory/Movements/Refused.antt =====
-- Movements that `commit_movement` refuses.
use bms_gui.Prelude.{
  true-false, ◌≡◌, refl, sym, ◌∙◌, subst, true, false, ℤ, pos, ◌+ℤ◌, ltb_ℤ, inl, inr,
}
use bms_gui.Result.{ok-eq, Error, ok, err, Result-cases}
use bms_gui.Exec.Outcome.{reads-err}
use bms_gui.Store.{stock_movements, Env, World, payloads}
use bms_gui.Inventory.Models.{StockMovementCommand}
use bms_gui.Inventory.Stock.{stock_of}
use bms_gui.Inventory.Movements.{plan_movement, commit_movement}
use bms_gui.Inventory.Movements.Written.{plan_movement-ok, allowed}

-- Where the stock of the item is found and the movement would bring it below zero,
-- `commit_movement` raises and nothing is written; the service was made without
-- `allow_negative_stock`.
pub commit_movement-negative :
    (env : Env) (command : StockMovementCommand) (w : World) (quantity : ℤ)
    → stock_of command.item_id (payloads stock_movements w) ≡ ok quantity
    → ltb_ℤ (quantity +ℤ command.quantity_delta) (pos 0) ≡ true
    → (e : Error) × (commit_movement env false command w ≡ (err e, w))
unfolding commit_movement
commit_movement-negative env command w quantity stock below =
    elim (Result-cases (plan_movement env false command w)) [
      | inl (m, planned) ↦
          let p = plan_movement-ok env false command w planned in
          let same : p.quantity ≡ quantity = ok-eq (sym p.stock ∙ stock) in
          let above =
            subst (λ q. ltb_ℤ (q +ℤ command.quantity_delta) (pos 0) ≡ false) same
              (allowed env false _ refl p.not_negative) in
          absurd (true-false (sym below ∙ above))
      | inr (e, failed) ↦ (e, reads-err (plan_movement env false command) _ w failed)
    ]
