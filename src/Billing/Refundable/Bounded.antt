-- ===== src/Billing/Refundable/Bounded.antt =====
-- What a refund that passes `_validate_refund_against_original_invoice` asks for.
use bms_gui.Prelude.{
  ◌-ℤ◌, if_true, if_false, none-some, String, ◌≡◌, sym, ◌∙◌, ap, subst, ◌⊎◌, inl, inr, none, some,
  List, [], ◌∷◌, is_empty, ℤ, pos, ◌+ℤ◌, ◌≤ℤ◌, leb_ℤ, ltb_ℤ, arith, int_laws, zero-+ℤ, +ℤ_assoc,
  Bool-cases, Option-cases, if◌then◌else◌,
}
use bms_gui.Dict.{Dict, lookup, lookup_or}
use bms_gui.Dict.Laws.{lookup_or-insert}
use bms_gui.Dict.Keys.{string_key, LineKey, line_key_eq, line_key_eq_iff, line_key}
use bms_gui.Json.{Payload}
use bms_gui.Result.{Error, ok, fail_if, >>=-eq-ok, guard-ok, then-ok, check_each, fold_each}
use bms_gui.Store.{invoice_lines, refunds, refund_lines, Env, World, payloads, read_payloads}
use bms_gui.Store.Frame.{read_payloads-ok}
use bms_gui.Billing.Models.{RefundLineCommand, CreateRefundCommand}
use bms_gui.Billing.Refundable.Remaining.{
  quantity_sum, of_invoice, of_refunds, fold-add_invoiced, fold-take_refunded,
}
use bms_gui.Billing.Refundable.{
  original_invoice_quantities, prior_refund_ids, take_refunded, add_requested, check_refundable,
  validate_refund_against_original_invoice,
}

-- What the lines ask back of a key.
unfoldable pub requested_for : LineKey → List RefundLineCommand → ℤ
requested_for key [] = pos 0
requested_for key (line ∷ lines) =
    let rest = requested_for key lines in
    if line_key_eq (line.item_id, line.unit_price_minor) key then line.quantity +ℤ rest else rest

-- The dictionary of the code holds that sum.
add_requested-requested_for :
    (key : LineKey) (lines : List RefundLineCommand) (d : Dict LineKey ℤ)
    → lookup_or key (pos 0) (add_requested d lines)
      ≡ lookup_or key (pos 0) d +ℤ requested_for key lines
unfolding add_requested requested_for
add_requested-requested_for key [] d = omega int_laws
add_requested-requested_for key (line ∷ lines) d =
    let k : LineKey = (line.item_id, line.unit_price_minor) in
    add_requested-requested_for key lines _ ∙ elim (Bool-cases (line_key_eq k key)) [
      | inl same ↦
          let e : k ≡ key = (line_key_eq_iff k key).0 same in
          rw
            (
              lookup_or-insert k key (lookup_or k (pos 0) d +ℤ line.quantity) (pos 0) d,
              same,
              ap (λ j. lookup_or j (pos 0) d) e,
            )
            (+ℤ_assoc (lookup_or key (pos 0) d) line.quantity (requested_for key lines))
      | inr other ↦
          rw (lookup_or-insert k key (lookup_or k (pos 0) d +ℤ line.quantity) (pos 0) d, other)
    ]

ltb-false : (a b : ℤ) (e : Error) → fail_if (ltb_ℤ a b) e ≡ ok tt → b ≤ℤ a
ltb-false a b e h = ground arith

some-eq : {a b : ℤ} → some a ≡ some b → a ≡ b
some-eq h = ground arith

check_refundable-ok :
    (remaining : Dict LineKey ℤ) (key : LineKey) (q : ℤ)
    → check_refundable remaining (key, q) ≡ ok tt
    → (q ≤ℤ lookup_or key (pos 0) remaining)
unfolding check_refundable
check_refundable-ok remaining key q h =
    let (_, h1) = guard-ok (leb_ℤ (lookup_or key (pos 0) remaining) (pos 0)) _ _ h in
    ltb-false (lookup_or key (pos 0) remaining) q _ h1

-- Every entry of a dictionary that was checked is within what remains.
checked-lookup :
    (remaining : Dict LineKey ℤ) (key : LineKey) (d : Dict LineKey ℤ) {q : ℤ}
    → check_each d (check_refundable remaining) ≡ ok tt
    → lookup key d ≡ some q
    → q ≤ℤ lookup_or key (pos 0) remaining
unfolding check_each lookup
checked-lookup remaining key [] h e = absurd (none-some e)
checked-lookup remaining key ((k, v) ∷ d) {q} h e =
    let (first, rest) = then-ok (check_refundable remaining (k, v)) _ h in
    elim (Bool-cases (line_key_eq k key)) [
      | inl same ↦
          let found = some-eq (if_true (line_key_eq k key) (some v) (lookup key d) same e) in
          subst (λ j. q ≤ℤ lookup_or j (pos 0) remaining) ((line_key_eq_iff k key).0 same)
            (subst (λ n. n ≤ℤ lookup_or k (pos 0) remaining) found
              (check_refundable-ok remaining k v first))
      | inr other ↦
          checked-lookup remaining key d rest
            (if_false (line_key_eq k key) (some v) (lookup key d) other e)
    ]

lookup_or-of :
    (key : LineKey) (d : Dict LineKey ℤ)
    → ((lookup key d ≡ none) × (lookup_or key (pos 0) d ≡ pos 0))
      ⊎ ((q : ℤ) × (lookup key d ≡ some q) × (lookup_or key (pos 0) d ≡ q))
unfolding lookup_or
lookup_or-of key d = elim (Option-cases (lookup key d)) [
  | inl missing ↦ inl (missing, rw (lookup_or, missing))
  | inr (q, found) ↦ inr (q, found, rw (lookup_or, found))
]

empty_sum : (key : LineKey) (n : ℤ) → lookup_or key (pos 0) [] +ℤ n ≡ n
unfolding lookup_or lookup
empty_sum key n = zero-+ℤ n

-- What is left of the invoice, and that the command stays within it.
pub record IsRefundable (command : CreateRefundCommand) (w : World) : Type 0 where
  pub ids : List String
  pub refunds_found : prior_refund_ids command.original_invoice_id (payloads refunds w) ≡ ok ids
  pub within :
      (key : LineKey)
      → (requested_for key command.lines ≡ pos 0)
        ⊎ (requested_for key command.lines
            ≤ℤ quantity_sum (of_invoice command.original_invoice_id) key (payloads invoice_lines w)
              -ℤ quantity_sum (of_refunds ids) key (payloads refund_lines w))

-- What the code leaves of the invoice is that difference.
remaining-quantity_sum :
    (invoice_id : String) (ids : List String) (key : LineKey) (lines taken : List Payload)
    {invoiced remaining : Dict LineKey ℤ}
    → original_invoice_quantities invoice_id lines ≡ ok invoiced
    → fold_each (take_refunded ids) invoiced taken ≡ ok remaining
    → lookup_or key (pos 0) remaining
      ≡ quantity_sum (of_invoice invoice_id) key lines -ℤ quantity_sum (of_refunds ids) key taken
unfolding original_invoice_quantities
remaining-quantity_sum invoice_id ids key lines taken {invoiced} found left =
    fold-take_refunded ids key invoiced taken left
    ∙ ap (λ n. n -ℤ quantity_sum (of_refunds ids) key taken)
        (fold-add_invoiced invoice_id key [] lines found
          ∙ empty_sum key (quantity_sum (of_invoice invoice_id) key lines))

checked-within :
    (remaining : Dict LineKey ℤ) (lines : List RefundLineCommand) (key : LineKey)
    → check_each (add_requested [] lines) (check_refundable remaining) ≡ ok tt
    → (requested_for key lines ≡ pos 0)
      ⊎ (requested_for key lines ≤ℤ lookup_or key (pos 0) remaining)
checked-within remaining lines key h =
    let sums = add_requested-requested_for key lines [] ∙ empty_sum key (requested_for key lines) in
    elim (lookup_or-of key (add_requested [] lines)) [
      | inl (_, zero_asked) ↦ inl (sym sums ∙ zero_asked)
      | inr (q, found, asked) ↦ inr (
          subst (λ n. n ≤ℤ lookup_or key (pos 0) remaining) (sym asked ∙ sums)
            (checked-lookup remaining key (add_requested [] lines) h found))
    ]

-- A refund that passes `_validate_refund_against_original_invoice` asks back, of every item at
-- every unit price and over all its lines together, nothing or at most the sum of the quantities
-- of the stored lines of the invoice less that of the stored lines of its earlier refunds.
pub validate_refund_against_original_invoice-IsRefundable :
    (env : Env) (command : CreateRefundCommand) (w : World)
    → validate_refund_against_original_invoice env command w ≡ ok tt
    → IsRefundable command w
unfolding validate_refund_against_original_invoice
validate_refund_against_original_invoice-IsRefundable env command w h =
    let id = command.original_invoice_id in
    let (lines, read_lines, h1) = >>=-eq-ok (read_payloads env invoice_lines w) _ h in
    let (invoiced, found, h2) = >>=-eq-ok (original_invoice_quantities id lines) _ h1 in
    let (_, h3) = guard-ok (is_empty invoiced) _ _ h2 in
    let (stored, read_refunds, h4) = >>=-eq-ok (read_payloads env refunds w) _ h3 in
    let (ids, prior, h5) = >>=-eq-ok (prior_refund_ids id stored) _ h4 in
    let (taken, read_taken, h6) = >>=-eq-ok (read_payloads env refund_lines w) _ h5 in
    let (remaining, left, h7) = >>=-eq-ok (fold_each (take_refunded ids) invoiced taken) _ h6 in
    let same_lines = read_payloads-ok env invoice_lines w read_lines in
    let same_taken = read_payloads-ok env refund_lines w read_taken in
    record {
      ids = ids;
      refunds_found = rw (read_payloads-ok env refunds w read_refunds) prior;
      within = λ key.
          rw
            (same_lines, same_taken, sym (remaining-quantity_sum id ids key lines taken found left))
            (checked-within remaining command.lines key h7);
    }
