-- ===== src/Inventory/Movements/Written.antt =====
-- What `commit_movement` has checked and written when it returns.
use bms_gui.Prelude.{
  String, ◌≡◌, refl, ap, sym, ◌∙◌, Bool, false, not, ◌&&◌, List, [], ◌∷◌, ◌++◌, ℤ, pos, ◌+ℤ◌, ltb_ℤ,
  str_eq, arith,
}
use bms_gui.Json.{Payload}
use bms_gui.Result as R
use bms_gui.Result.{ok-eq, Result, ok, err, then-ok, guard-ok}
use bms_gui.Exec.{reads}
use bms_gui.Exec.Outcome.{
  Anything-Keeps, Triple, Triple-ok, Triple-then, Triple-bind, Triple-Keeps, Triple-pure, Anything,
  >>=-eq-ok,
}
use bms_gui.Store.{stock_movements, Env, World, payloads, read_payloads}
use bms_gui.Store.Frame.{OnTable, store_keeps, uuid4_hex-Keeps, read_payloads-ok}
use bms_gui.Store.Append.{append_record-adds}
use bms_gui.Inventory.Models.{StockMovementCommand, StockMovementResult}
use bms_gui.Inventory.Stock.{stock_of, value_of, get_stock_on_hand, get_inventory_value_minor}
use bms_gui.Inventory.Stock.Laws.{
  Carries, stock_of-own, value_of-own, stock_of-other, value_of-other,
}
use bms_gui.Inventory.Movements.{
  validate_command, reject_duplicate_movement, validate_movement_item, Movement, movement_of,
  movement_payload, plan_movement, write_movement, commit_movement,
}

pub movement_payload-quantity :
    (command : StockMovementCommand) (m : Movement)
    → Carries "quantity_delta" command.item_id command.quantity_delta (movement_payload command m)
unfolding movement_payload
movement_payload-quantity command m = record { of_item = refl; amount = refl }

movement_payload-value :
    (command : StockMovementCommand) (m : Movement)
    → Carries "value_delta_minor" command.item_id m.value_delta (movement_payload command m)
unfolding movement_payload
movement_payload-value command m = record { of_item = refl; amount = refl }

module _ (env : Env) (allow : Bool) where
  -- Going on from `T`, the payload of the movement gives `U`.
  pub write_movement-adds :
      (command : StockMovementCommand) (m : Movement) {T U : List Payload → Type 0}
      (R : World → Type 0)
      → ((ps : List Payload) → T ps → U (ps ++ movement_payload command m ∷ []))
      → ((w : World) → OnTable stock_movements T w → R w)
      → ((w : World) → OnTable stock_movements U w → R w)
      → Triple
          (OnTable stock_movements T)
          (write_movement env allow command m)
          (λ _. OnTable stock_movements U)
          R
  unfolding write_movement
  write_movement-adds command m R grow before after =
      Triple-then _ _ (uuid4_hex-Keeps env) before λ hex.
        Triple-then _ _ (search (store_keeps, tt)) before λ _.
          Triple-bind _ _ _
            (append_record-adds env stock_movements (movement_payload command m) grow before after _
              _ _ _ _ _)
            λ _. Triple-Keeps _ (search (store_keeps, tt) depth 20) after

  write_movement-result :
      (command : StockMovementCommand) (m : Movement)
      → Triple Anything
          (write_movement env allow command m)
          (λ result _.
            (result.quantity_on_hand ≡ m.next_quantity)
            × (result.inventory_value_after_minor ≡ m.value_after)
            × (result.value_delta_minor ≡ m.value_delta))
          Anything
  unfolding write_movement
  write_movement-result command m =
      Triple-then _ _ (Anything-Keeps _) (λ _ _. tt)
        λ _.
          Triple-then _ _ (Anything-Keeps _) (λ _ _. tt)
            λ _.
              Triple-then _ _ (Anything-Keeps _) (λ _ _. tt)
                λ _.
                  Triple-then _ _ (Anything-Keeps _) (λ _ _. tt)
                    λ _.
                      Triple-then _ _ (Anything-Keeps _) (λ _ _. tt)
                        λ _.
                          Triple-then _ _ (Anything-Keeps _) (λ _ _. tt)
                            λ _. Triple-pure _ (λ _ _. (refl, refl, refl))

  -- What the plan of a movement rests on.
  pub record IsPlanned (command : StockMovementCommand) (w : World) (m : Movement) : Type 0 where
    pub quantity : ℤ
    pub value : ℤ
    pub valid : validate_command command ≡ ok tt
    pub fresh : reject_duplicate_movement command.movement_id (payloads stock_movements w) ≡ ok tt
    pub active : validate_movement_item env allow command.item_id w ≡ ok tt
    pub stock : stock_of command.item_id (payloads stock_movements w) ≡ ok quantity
    pub worth : value_of command.item_id (payloads stock_movements w) ≡ ok value
    pub not_negative : (ltb_ℤ (quantity +ℤ command.quantity_delta) (pos 0) && not allow) ≡ false
    pub next : m.next_quantity ≡ quantity +ℤ command.quantity_delta
    pub after : m.value_after ≡ value +ℤ m.value_delta

  pub allowed : (b : Bool) → allow ≡ false → (b && not allow) ≡ false → b ≡ false
  allowed b strict h = ground arith

  pub plan_movement-ok :
      (command : StockMovementCommand) (w : World) {m : Movement}
      → plan_movement env allow command w ≡ ok m
      → IsPlanned command w m
  unfolding plan_movement movement_of get_stock_on_hand get_inventory_value_minor
  plan_movement-ok command w h =
      let (valid, h1) = then-ok (validate_command command) _ h in
      let (fresh, h2) =
        then-ok
          (R.◌>>=◌ (read_payloads env stock_movements w)
            (reject_duplicate_movement command.movement_id))
          _ h1 in
      let (active, h3) = then-ok (validate_movement_item env allow command.item_id w) _ h2 in
      let (quantity, stock, h4) = R.>>=-eq-ok (get_stock_on_hand env command.item_id w) _ h3 in
      let (value, worth, h5) = R.>>=-eq-ok (get_inventory_value_minor env command.item_id w) _ h4 in
      let (passed, h6) = guard-ok _ _ _ h5 in
      let (ps, read, unique) = R.>>=-eq-ok (read_payloads env stock_movements w) _ fresh in
      let (qs, read_q, summed_q) = R.>>=-eq-ok (read_payloads env stock_movements w) _ stock in
      let (vs, read_v, summed_v) = R.>>=-eq-ok (read_payloads env stock_movements w) _ worth in
      record {
        quantity = quantity;
        value = value;
        valid = valid;
        fresh = rw (read_payloads-ok env stock_movements w read) unique;
        active = active;
        stock = rw (read_payloads-ok env stock_movements w read_q) summed_q;
        worth = rw (read_payloads-ok env stock_movements w read_v) summed_v;
        not_negative = passed;
        next = rw (sym (ok-eq h6));
        after = rw (sym (ok-eq h6));
      }

  -- What a call that returned has written, and what it says of it.
  pub record IsCommitted (command : StockMovementCommand) (w : World) (result : StockMovementResult)
      (w' : World) : Type 0 where
    pub quantity :
        stock_of command.item_id (payloads stock_movements w') ≡ ok result.quantity_on_hand
    pub value :
        value_of command.item_id (payloads stock_movements w')
        ≡ ok result.inventory_value_after_minor

  write_movement-IsCommitted :
      (command : StockMovementCommand) (m : Movement) (w : World) {result : StockMovementResult}
      {w' : World}
      → IsPlanned command w m
      → write_movement env allow command m w ≡ (ok result, w')
      → IsCommitted command w result w'
  write_movement-IsCommitted command m w p h =
      let ps = payloads stock_movements w in
      let p' = movement_payload command m in
      let (quantity_after, value_after, delta) =
        Triple-ok _ w (write_movement-result command m) tt h in
      let added_one =
        (Triple-ok _ w
          (write_movement-adds command m {T = λ qs. qs ≡ ps} {U = λ qs. qs ≡ ps ++ p' ∷ []} Anything
            (λ qs e. rw e) (λ _ _. tt) (λ _ _. tt))
          (record { holds = refl }) h).holds in
      record {
        quantity =
            rw (added_one, quantity_after)
              (stock_of-own command.item_id command.quantity_delta ps p'
                  (movement_payload-quantity command m) p.stock
                ∙ ap ok (sym p.next));
        value =
            rw (added_one, value_after)
              (value_of-own command.item_id m.value_delta ps p' (movement_payload-value command m)
                  p.worth
                ∙ ap ok (sym p.after));
      }

  -- Where `commit_movement` returned, the stock and the value of the item that are read back from
  -- the movements are those of the result.
  pub commit_movement-IsCommitted :
      (command : StockMovementCommand) (w : World) {result : StockMovementResult} {w' : World}
      → commit_movement env allow command w ≡ (ok result, w')
      → IsCommitted command w result w'
  unfolding commit_movement reads
  commit_movement-IsCommitted command w h =
      let (m, planned, h1) = >>=-eq-ok (reads (plan_movement env allow command)) _ w h in
      write_movement-IsCommitted command m w (plan_movement-ok command w planned) h1

  -- Where `commit_movement` returned, the stock and the value that are read back of every other
  -- item are as before.
  pub commit_movement-others :
      (command : StockMovementCommand) (other : String) (w : World) {result : StockMovementResult}
      {w' : World}
      → str_eq command.item_id other ≡ false
      → commit_movement env allow command w ≡ (ok result, w')
      → (stock_of other (payloads stock_movements w') ≡ stock_of other (payloads stock_movements w))
        × (value_of other (payloads stock_movements w')
            ≡ value_of other (payloads stock_movements w))
  unfolding commit_movement reads
  commit_movement-others command other w e h =
      let (m, planned, h1) = >>=-eq-ok (reads (plan_movement env allow command)) _ w h in
      let ps = payloads stock_movements w in
      let p' = movement_payload command m in
      let added_one =
        (Triple-ok _ w
          (write_movement-adds command m {T = λ qs. qs ≡ ps} {U = λ qs. qs ≡ ps ++ p' ∷ []} Anything
            (λ qs e. rw e) (λ _ _. tt) (λ _ _. tt))
          (record { holds = refl }) h1).holds in
      rw added_one (
        stock_of-other command.item_id other command.quantity_delta ps p'
            (movement_payload-quantity command m) e,
        value_of-other command.item_id other m.value_delta ps p' (movement_payload-value command m)
            e,
      )
