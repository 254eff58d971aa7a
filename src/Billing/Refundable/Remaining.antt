-- ===== src/Billing/Refundable/Remaining.antt =====
-- The quantities that `_original_invoice_quantities` and the loop over the refund lines find, as
-- sums over the payloads.
use bms_gui.Prelude.{
  String, ◌≡◌, sym, ◌∙◌, ap, Bool, true, false, List, [], ◌∷◌, ℤ, pos, ◌+ℤ◌, ◌-ℤ◌, inl, inr,
  Bool-cases, int_laws, if◌then◌else◌, if_true, if_false,
}
use bms_gui.Dict.{Dict, lookup_or, insert}
use bms_gui.Dict.Laws.{lookup_or-insert}
use bms_gui.Dict.Keys.{LineKey, line_key, line_key_eq, line_key_eq_iff}
use bms_gui.Json.{Payload, get, is_text, as_text}
use bms_gui.Result.{Result, ok, ok-eq, >>=-eq-ok, fold_each}
use bms_gui.Billing.Payloads.{required_int}
use bms_gui.Billing.Refundable.{line_key_of, add_invoiced, is_prior, take_refunded}

-- The quantity of a stored line, where its item and unit price are these.
abbrev pub amount : LineKey → Result LineKey → Result ℤ → ℤ
amount key (ok k) (ok quantity) = if line_key_eq k key then quantity else pos 0
amount key _ _ = pos 0

abbrev pub quantity_of : LineKey → Payload → ℤ
quantity_of key payload = amount key (line_key_of payload) (required_int payload "quantity")

-- The quantities over the payloads that a test chooses.
unfoldable pub quantity_sum : (Payload → Bool) → LineKey → List Payload → ℤ
quantity_sum chosen key [] = pos 0
quantity_sum chosen key (payload ∷ rest) =
    let others = quantity_sum chosen key rest in
    if chosen payload then quantity_of key payload +ℤ others else others

abbrev pub of_invoice : String → Payload → Bool
of_invoice invoice_id payload = is_text (get "invoice_id" payload) invoice_id

abbrev pub of_refunds : List String → Payload → Bool
of_refunds ids payload = is_prior ids (as_text (get "refund_id" payload))

amount-same : (key k : LineKey) (q : ℤ) → line_key_eq k key ≡ true → amount key (ok k) (ok q) ≡ q
amount-same key k q h = rw h

amount-other :
    (key k : LineKey) (q : ℤ) → line_key_eq k key ≡ false → amount key (ok k) (ok q) ≡ pos 0
amount-other key k q h = rw h

zero-right : (a : ℤ) → a ≡ a +ℤ pos 0
zero-right a = omega int_laws

zero-off : (a : ℤ) → a ≡ a -ℤ pos 0
zero-off a = omega int_laws

plus_assoc : (a b c : ℤ) → a +ℤ b +ℤ c ≡ a +ℤ (b +ℤ c)
plus_assoc a b c = omega int_laws

minus_assoc : (a b c : ℤ) → a -ℤ b -ℤ c ≡ a -ℤ (b +ℤ c)
minus_assoc a b c = omega int_laws

insert-plus :
    (key k : LineKey) (q : ℤ) (d : Dict LineKey ℤ)
    → lookup_or key (pos 0) (insert k (lookup_or k (pos 0) d +ℤ q) d)
      ≡ lookup_or key (pos 0) d +ℤ amount key (ok k) (ok q)
insert-plus key k q d = elim (Bool-cases (line_key_eq k key)) [
  | inl same ↦
      rw (lookup_or-insert k key (lookup_or k (pos 0) d +ℤ q) (pos 0) d, same)
        (ap (λ j. lookup_or j (pos 0) d +ℤ q) ((line_key_eq_iff k key).0 same))
  | inr other ↦
      rw (lookup_or-insert k key (lookup_or k (pos 0) d +ℤ q) (pos 0) d, other)
        (zero-right (lookup_or key (pos 0) d))
]

add_invoiced-quantity_of :
    (invoice_id : String) (key : LineKey) (d : Dict LineKey ℤ) (payload : Payload)
    {d' : Dict LineKey ℤ}
    → of_invoice invoice_id payload ≡ true
    → add_invoiced invoice_id d payload ≡ ok d'
    → lookup_or key (pos 0) d' ≡ lookup_or key (pos 0) d +ℤ quantity_of key payload
unfolding add_invoiced
add_invoiced-quantity_of invoice_id key d payload chosen h =
    let (k, found, h1) =
      >>=-eq-ok (line_key_of payload) _ (if_true (of_invoice invoice_id payload) _ _ chosen h) in
    let (q, read, h2) = >>=-eq-ok (required_int payload "quantity") _ h1 in
    ap (lookup_or key (pos 0)) (sym (ok-eq h2))
    ∙ insert-plus key k q d
    ∙ ap (λ n. lookup_or key (pos 0) d +ℤ n) (sym (rw (found, read)))

pub fold-add_invoiced :
    (invoice_id : String) (key : LineKey) (d : Dict LineKey ℤ) (payloads : List Payload)
    {d' : Dict LineKey ℤ}
    → fold_each (add_invoiced invoice_id) d payloads ≡ ok d'
    → lookup_or key (pos 0) d'
      ≡ lookup_or key (pos 0) d +ℤ quantity_sum (of_invoice invoice_id) key payloads
unfolding fold_each quantity_sum add_invoiced
fold-add_invoiced invoice_id key d [] h =
    ap (lookup_or key (pos 0)) (sym (ok-eq h)) ∙ zero-right (lookup_or key (pos 0) d)
fold-add_invoiced invoice_id key d (payload ∷ payloads) h =
    let (d1, first, rest) = >>=-eq-ok (add_invoiced invoice_id d payload) _ h in
    let others = fold-add_invoiced invoice_id key d1 payloads rest in
    elim (Bool-cases (of_invoice invoice_id payload)) [
      | inl chosen ↦ rw chosen (
          others
          ∙ ap (λ n. n +ℤ quantity_sum (of_invoice invoice_id) key payloads)
              (add_invoiced-quantity_of invoice_id key d payload chosen first)
          ∙ plus_assoc (lookup_or key (pos 0) d) (quantity_of key payload)
              (quantity_sum (of_invoice invoice_id) key payloads))
      | inr left ↦ rw left (
          others
          ∙ ap (λ e. lookup_or key (pos 0) e +ℤ quantity_sum (of_invoice invoice_id) key payloads)
              (sym (ok-eq (if_false (of_invoice invoice_id payload) _ _ left first))))
    ]

insert-minus :
    (key k : LineKey) (q : ℤ) (d : Dict LineKey ℤ)
    → lookup_or key (pos 0) (insert k (lookup_or k (pos 0) d -ℤ q) d)
      ≡ lookup_or key (pos 0) d -ℤ amount key (ok k) (ok q)
insert-minus key k q d = elim (Bool-cases (line_key_eq k key)) [
  | inl same ↦
      rw (lookup_or-insert k key (lookup_or k (pos 0) d -ℤ q) (pos 0) d, same)
        (ap (λ j. lookup_or j (pos 0) d -ℤ q) ((line_key_eq_iff k key).0 same))
  | inr other ↦
      rw (lookup_or-insert k key (lookup_or k (pos 0) d -ℤ q) (pos 0) d, other)
        (zero-off (lookup_or key (pos 0) d))
]

take_refunded-quantity_of :
    (ids : List String) (key : LineKey) (d : Dict LineKey ℤ) (payload : Payload)
    {d' : Dict LineKey ℤ}
    → of_refunds ids payload ≡ true
    → take_refunded ids d payload ≡ ok d'
    → lookup_or key (pos 0) d' ≡ lookup_or key (pos 0) d -ℤ quantity_of key payload
unfolding take_refunded
take_refunded-quantity_of ids key d payload chosen h =
    let (k, found, h1) =
      >>=-eq-ok (line_key_of payload) _ (if_true (of_refunds ids payload) _ _ chosen h) in
    let (q, read, h2) = >>=-eq-ok (required_int payload "quantity") _ h1 in
    ap (lookup_or key (pos 0)) (sym (ok-eq h2))
    ∙ insert-minus key k q d
    ∙ ap (λ n. lookup_or key (pos 0) d -ℤ n) (sym (rw (found, read)))

pub fold-take_refunded :
    (ids : List String) (key : LineKey) (d : Dict LineKey ℤ) (payloads : List Payload)
    {d' : Dict LineKey ℤ}
    → fold_each (take_refunded ids) d payloads ≡ ok d'
    → lookup_or key (pos 0) d'
      ≡ lookup_or key (pos 0) d -ℤ quantity_sum (of_refunds ids) key payloads
unfolding fold_each quantity_sum take_refunded
fold-take_refunded ids key d [] h =
    ap (lookup_or key (pos 0)) (sym (ok-eq h)) ∙ zero-off (lookup_or key (pos 0) d)
fold-take_refunded ids key d (payload ∷ payloads) h =
    let (d1, first, rest) = >>=-eq-ok (take_refunded ids d payload) _ h in
    let others = fold-take_refunded ids key d1 payloads rest in
    elim (Bool-cases (of_refunds ids payload)) [
      | inl chosen ↦ rw chosen (
          others
          ∙ ap (λ n. n -ℤ quantity_sum (of_refunds ids) key payloads)
              (take_refunded-quantity_of ids key d payload chosen first)
          ∙ minus_assoc (lookup_or key (pos 0) d) (quantity_of key payload)
              (quantity_sum (of_refunds ids) key payloads))
      | inr left ↦ rw left (
          others
          ∙ ap (λ e. lookup_or key (pos 0) e -ℤ quantity_sum (of_refunds ids) key payloads)
              (sym (ok-eq (if_false (of_refunds ids payload) _ _ left first))))
    ]
