-- ===== src/Inventory/Movements/NonNegative.antt =====
-- The stock of an item under a service that does not allow it to go below zero.
use bms_gui.Prelude.{
  String, ◌≡◌, refl, subst, Bool, false, List, [], ◌∷◌, ◌++◌, ℤ, pos, ltb_ℤ, str_eq, eq_iff, inl,
  inr, Bool-cases,
}
use bms_gui.Json.{Payload}
use bms_gui.Result.{Result, ok, err, fold_each}
use bms_gui.Exec.Keeps.{Keeps, Keeps-bind-reads}
use bms_gui.Exec.Outcome.{Triple-both}
use bms_gui.Store.{stock_movements, Env, World, payloads}
use bms_gui.Store.Frame.{OnTable}
use bms_gui.Inventory.Models.{StockMovementCommand}
use bms_gui.Inventory.Stock.{stock_of}
use bms_gui.Inventory.Stock.Laws.{Carries, stock_of-own, stock_of-other}
use bms_gui.Inventory.Movements.{Movement, plan_movement, write_movement, commit_movement}
use bms_gui.Inventory.Movements.Written.{
  movement_payload-quantity, IsPlanned, plan_movement-ok, write_movement-adds, allowed,
}

-- A stock was found and it is negative.
abbrev pub is_short : Result ℤ → Bool
is_short (ok q) = ltb_ℤ q (pos 0)
is_short (err e) = false

-- The movements add up to a negative stock for no item.
pub record IsStocked (ps : List Payload) : Type 0 where
  pub at : (item : String) → is_short (stock_of item ps) ≡ false

-- The movements of the file do.
abbrev pub Stocked : World → Type 0
Stocked = OnTable stock_movements IsStocked

pub no_movements-IsStocked : IsStocked []
unfolding stock_of fold_each
no_movements-IsStocked = record { at = λ item. refl }

append-IsStocked :
    (item : String) (n next : ℤ) (ps : List Payload) (p : Payload)
    → Carries "quantity_delta" item n p
    → stock_of item (ps ++ p ∷ []) ≡ ok next
    → ltb_ℤ next (pos 0) ≡ false
    → IsStocked ps
    → IsStocked (ps ++ p ∷ [])
append-IsStocked item n next ps p c own h all = record {
  at = λ other. elim (Bool-cases (str_eq item other)) [
    | inl same ↦
        subst (λ i. is_short (stock_of i (ps ++ p ∷ [])) ≡ false) ((eq_iff item other).0 same)
          (rw own h)
    | inr different ↦ rw (stock_of-other item other n ps p c different) (all.at other)
  ];
}

module _ (env : Env) where
  write_movement-Stocked :
      (command : StockMovementCommand) (m : Movement) (w : World)
      → IsPlanned env false command w m
      → Stocked w
      → Stocked (write_movement env false command m w).1
  write_movement-Stocked command m w p h =
      let ps = payloads stock_movements w in
      let c = movement_payload-quantity command m in
      Triple-both (λ _. Stocked) Stocked _ w
        (write_movement-adds env false command m {T = λ qs. qs ≡ ps} {U = IsStocked} Stocked
          (λ qs e. rw e (
            append-IsStocked command.item_id command.quantity_delta _ ps _ c
              (stock_of-own command.item_id command.quantity_delta ps _ c p.stock)
              (allowed env false _ refl p.not_negative) h.holds))
          (λ w' k. record { holds = rw k.holds h.holds }) (λ w' k. k))
        (λ _ _ k. k) (record { holds = refl })

  pub commit_movement-Stocked :
      (command : StockMovementCommand) → Keeps Stocked (commit_movement env false command)
  unfolding commit_movement
  commit_movement-Stocked command =
      Keeps-bind-reads (plan_movement env false command) _ λ w m planned h.
        write_movement-Stocked command m w (plan_movement-ok env false command w planned) h

  -- Whether it returns or raises, a movement leaves no item with a negative stock, where the
  -- service was made without `allow_negative_stock` and no item had one before.
  pub commit_movement-IsStocked :
      (command : StockMovementCommand) (w : World)
      → IsStocked (payloads stock_movements w)
      → IsStocked (payloads stock_movements (commit_movement env false command w).1)
  commit_movement-IsStocked command w h =
      ((commit_movement-Stocked command).at w (record { holds = h })).holds
