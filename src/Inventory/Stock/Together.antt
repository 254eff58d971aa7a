-- ===== src/Inventory/Stock/Together.antt =====
-- `get_all_stock_on_hand` finds for every item what `get_stock_on_hand` finds.
use bms_gui.Prelude.{
  arith, none-some, String, ◌≡◌, refl, sym, ◌∙◌, ap, subst, Option, some, List, [], ◌∷◌, ◌++◌, ℤ,
  pos, ◌+ℤ◌, str_eq, eq_iff, inl, inr, Bool-cases,
}
use mathlib.Core.List.{append_assoc, append-nil}
use bms_gui.Dict.{Dict, lookup_or, insert}
use bms_gui.Dict.Laws.{lookup_or-insert}
use bms_gui.Dict.Agree.{IsDict, IsDict-insert, lookup_or-sorted_items}
use bms_gui.Dict.Keys.{string_key}
use bms_gui.Json.{Value, str, Payload, get, is_text, as_text}
use bms_gui.Result.{ok, ok-eq, found-ok, >>=-eq-ok, fold_each, fold_each-append}
use bms_gui.Store.{Env, World, stock_movements, read_payloads}
use bms_gui.Inventory.Stock.{
  int_payload, add_field, stock_of, add_stock, all_stock_of, get_stock_on_hand,
  get_all_stock_on_hand,
}

some_eq : {A : Type 0} {a b : A} → some a ≡ some b → a ≡ b
some_eq h = ground arith

is_text-as_text : (v : Option Value) (s t : String) → as_text v ≡ some s → is_text v t ≡ str_eq s t
is_text-as_text (some (str r)) s t h = rw (some_eq h) refl
is_text-as_text v s t h = absurd (none-some h)

-- What has been read so far.
record IsStock (movements : List Payload) (quantities : Dict String ℤ) : Type 0 where
  found :
      (item_id : String) → stock_of item_id movements ≡ ok (lookup_or item_id (pos 0) quantities)
  distinct : IsDict (pos 0) quantities

no_movements-IsStock : IsStock [] []
unfolding stock_of lookup_or bms_gui.Dict.lookup fold_each
no_movements-IsStock = record { found = λ item_id. refl; distinct = tt }

-- One movement more, of an item and a quantity.
added-IsStock :
    (movements : List Payload) (quantities : Dict String ℤ) (payload : Payload) (item : String)
    (n : ℤ)
    → IsStock movements quantities
    → as_text (get "item_id" payload) ≡ some item
    → int_payload "quantity_delta" payload ≡ ok n
    → IsStock
        (movements ++ payload ∷ [])
        (insert item (lookup_or item (pos 0) quantities +ℤ n) quantities)
unfolding stock_of add_field
added-IsStock movements quantities payload item n h of_item amount = record {
  found = λ item_id.
      fold_each-append (add_field "quantity_delta" item_id) (pos 0) movements payload
      ∙ elim (Bool-cases (str_eq item item_id)) [
        | inl same ↦
            rw
              (
                h.found item_id,
                is_text-as_text (get "item_id" payload) item item_id of_item,
                amount,
                lookup_or-insert item item_id (lookup_or item (pos 0) quantities +ℤ n) (pos 0)
                    quantities,
                same,
              )
              (ap (λ i. ok (lookup_or i (pos 0) quantities +ℤ n))
                (sym ((eq_iff item item_id).0 same)))
        | inr other ↦
            rw
              (
                h.found item_id,
                is_text-as_text (get "item_id" payload) item item_id of_item,
                lookup_or-insert item item_id (lookup_or item (pos 0) quantities +ℤ n) (pos 0)
                    quantities,
                other,
              )
              refl
      ];
  distinct =
      IsDict-insert (pos 0) item (lookup_or item (pos 0) quantities +ℤ n) quantities h.distinct;
}

add_stock-IsStock :
    (movements : List Payload) (quantities : Dict String ℤ) (payload : Payload)
    {next : Dict String ℤ}
    → IsStock movements quantities
    → add_stock quantities payload ≡ ok next
    → IsStock (movements ++ payload ∷ []) next
unfolding add_stock
add_stock-IsStock movements quantities payload h e =
    let (item, of_item, e1) = found-ok (as_text (get "item_id" payload)) _ _ e in
    let (n, amount, e2) = >>=-eq-ok (int_payload "quantity_delta" payload) _ e1 in
    subst (IsStock (movements ++ payload ∷ [])) (ok-eq e2)
      (added-IsStock movements quantities payload item n h of_item amount)

fold-IsStock :
    (before movements : List Payload) (quantities : Dict String ℤ) {final : Dict String ℤ}
    → IsStock before quantities
    → fold_each add_stock quantities movements ≡ ok final
    → IsStock (before ++ movements) final
unfolding fold_each
fold-IsStock before [] quantities {final} h e =
    subst (λ ms. IsStock ms final) (sym (append-nil before)) (subst (IsStock before) (ok-eq e) h)
fold-IsStock before (payload ∷ movements) quantities {final} h e =
    let (next, first, rest) = >>=-eq-ok (add_stock quantities payload) _ e in
    subst (λ ms. IsStock ms final) (append_assoc before (payload ∷ []) movements)
      (fold-IsStock (before ++ payload ∷ []) movements next
        (add_stock-IsStock before quantities payload h first) rest)

all_stock_of-stock_of :
    (movements : List Payload) (item_id : String) {quantities : Dict String ℤ}
    → all_stock_of movements ≡ ok quantities
    → stock_of item_id movements ≡ ok (lookup_or item_id (pos 0) quantities)
unfolding all_stock_of
all_stock_of-stock_of movements item_id h =
    let (read, found, e) = >>=-eq-ok (fold_each add_stock [] movements) _ h in
    let stock = fold-IsStock [] movements [] no_movements-IsStock found in
    stock.found item_id
    ∙ ap ok (sym (lookup_or-sorted_items (pos 0) item_id read stock.distinct))
    ∙ ap (λ d. ok (lookup_or item_id (pos 0) d)) (ok-eq e)

module _ (env : Env) where
  -- Where `get_all_stock_on_hand` returned, `get_stock_on_hand` returns for every item the
  -- quantity that is found there, and 0 for an item that is not.
  pub get_all_stock_on_hand-get_stock_on_hand :
      (w : World) (item_id : String) {quantities : Dict String ℤ}
      → get_all_stock_on_hand env w ≡ ok quantities
      → get_stock_on_hand env item_id w ≡ ok (lookup_or item_id (pos 0) quantities)
  unfolding get_all_stock_on_hand get_stock_on_hand
  get_all_stock_on_hand-get_stock_on_hand w item_id h =
      let (movements, read, e) = >>=-eq-ok (read_payloads env stock_movements w) _ h in
      rw read (all_stock_of-stock_of movements item_id e)
