-- ===== src/Inventory/Stock/Laws.antt =====
-- How one more movement changes the stock and the value of every item.
use bms_gui.Prelude.{
  str_eq_refl, String, ◌≡◌, ◌∙◌, List, [], ◌∷◌, ◌++◌, ℤ, pos, ◌+ℤ◌, str_eq, false, some, arith,
  if◌then◌else◌,
}
use bms_gui.Json.{Payload, str, int, get}
use bms_gui.Result.{ok, ◌>>=◌, fold_each-append, bind_congr, bind-ok}
use bms_gui.Inventory.Stock.{int_payload, add_field, stock_of, value_of}

-- A payload of a movement of `item` that carries an integer in `field`.
pub record Carries (field item : String) (n : ℤ) (p : Payload) : Type 0 where
  pub of_item : get "item_id" p ≡ some (str item)
  pub amount : get field p ≡ some (int n)

int_payload-ok :
    (field : String) (n : ℤ) (p : Payload) → get field p ≡ some (int n) → int_payload field p ≡ ok n
unfolding int_payload
int_payload-ok field n p h = ground arith

add_field-Carries :
    (field item other : String) (n total : ℤ) (p : Payload)
    → Carries field item n p
    → add_field field other total p ≡ ok (if str_eq item other then total +ℤ n else total)
unfolding add_field
add_field-Carries field item other n total p c =
    rw (c.of_item, int_payload-ok field n p c.amount) (ground arith)

abbrev pub added : String → String → ℤ → ℤ → ℤ
added item other n total = if str_eq item other then total +ℤ n else total

pub stock_of-append :
    (item other : String) (n : ℤ) (ps : List Payload) (p : Payload)
    → Carries "quantity_delta" item n p
    → stock_of other (ps ++ p ∷ []) ≡ (stock_of other ps >>= λ q. ok (added item other n q))
unfolding stock_of
stock_of-append item other n ps p c =
    fold_each-append (add_field "quantity_delta" other) (pos 0) ps p
    ∙ bind_congr (stock_of other ps) _ _
        (λ q. add_field-Carries "quantity_delta" item other n q p c)

pub value_of-append :
    (item other : String) (n : ℤ) (ps : List Payload) (p : Payload)
    → Carries "value_delta_minor" item n p
    → value_of other (ps ++ p ∷ []) ≡ (value_of other ps >>= λ v. ok (added item other n v))
unfolding value_of
value_of-append item other n ps p c =
    fold_each-append (add_field "value_delta_minor" other) (pos 0) ps p
    ∙ bind_congr (value_of other ps) _ _
        (λ v. add_field-Carries "value_delta_minor" item other n v p c)

-- The item of the movement.
pub stock_of-own :
    (item : String) (n : ℤ) (ps : List Payload) (p : Payload) {q : ℤ}
    → Carries "quantity_delta" item n p
    → stock_of item ps ≡ ok q
    → stock_of item (ps ++ p ∷ []) ≡ ok (q +ℤ n)
stock_of-own item n ps p c h = rw (stock_of-append item item n ps p c, h, str_eq_refl item)

-- Every other item.
pub stock_of-other :
    (item other : String) (n : ℤ) (ps : List Payload) (p : Payload)
    → Carries "quantity_delta" item n p
    → str_eq item other ≡ false
    → stock_of other (ps ++ p ∷ []) ≡ stock_of other ps
stock_of-other item other n ps p c e = rw (stock_of-append item other n ps p c, e) (bind-ok _)

-- The item of the movement.
pub value_of-own :
    (item : String) (n : ℤ) (ps : List Payload) (p : Payload) {q : ℤ}
    → Carries "value_delta_minor" item n p
    → value_of item ps ≡ ok q
    → value_of item (ps ++ p ∷ []) ≡ ok (q +ℤ n)
value_of-own item n ps p c h = rw (value_of-append item item n ps p c, h, str_eq_refl item)

-- Every other item.
pub value_of-other :
    (item other : String) (n : ℤ) (ps : List Payload) (p : Payload)
    → Carries "value_delta_minor" item n p
    → str_eq item other ≡ false
    → value_of other (ps ++ p ∷ []) ≡ value_of other ps
value_of-other item other n ps p c e = rw (value_of-append item other n ps p c, e) (bind-ok _)
