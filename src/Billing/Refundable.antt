-- ===== src/Billing/Refundable.antt =====
-- What is left to refund of an invoice, and the cost at which goods come back, in
-- src/bms/domain/billing/service.py.
pub mod Bounded
pub mod Remaining
use bms_gui.Prelude.{
  String, Bool, not, Option, none, some, List, [], ◌∷◌, is_empty, ℤ, pos, ◌+ℤ◌, ◌-ℤ◌, ◌*ℤ◌, leb_ℤ,
  ltb_ℤ, floor_div, if◌then◌else◌,
}
use bms_gui.Dict.{Dict, lookup_or, insert, contains}
use bms_gui.Dict.Keys.{string_key, LineKey, line_key}
use bms_gui.Fields.{◌&◌, int_text}
use bms_gui.Json.{Payload, get, is_text, as_text}
use bms_gui.Result.{Result, ok, err, billing_error, ◌>>=◌, ◌>>◌, fail_if, check_each, fold_each}
use bms_gui.Store.{Env, World, invoice_lines, refunds, refund_lines, read_payloads}
use bms_gui.Billing.Models.{RefundLineCommand, CreateRefundCommand}
use bms_gui.Billing.Payloads.{required_str, required_int, optional_int}

-- `(item_id, unit_price_minor)` of a stored line.
unfoldable pub line_key_of : Payload → Result LineKey
line_key_of payload = required_str payload "item_id" >>= λ item_id.
    required_int payload "unit_price_minor" >>= λ unit_price. ok (item_id, unit_price)

-- The body of the loop of `_original_invoice_quantities`.
unfoldable pub add_invoiced : String → Dict LineKey ℤ → Payload → Result (Dict LineKey ℤ)
add_invoiced invoice_id quantities payload =
    if is_text (get "invoice_id" payload) invoice_id
    then (do
      key ← line_key_of payload
      quantity ← required_int payload "quantity"
      ok (insert key (lookup_or key (pos 0) quantities +ℤ quantity) quantities))
    else ok quantities

-- `_original_invoice_quantities`, over the payloads of the invoice lines.
unfoldable pub original_invoice_quantities : String → List Payload → Result (Dict LineKey ℤ)
original_invoice_quantities invoice_id lines = fold_each (add_invoiced invoice_id) [] lines

-- The refunds of the invoice.
unfoldable pub add_prior_refund : String → List String → Payload → Result (List String)
add_prior_refund invoice_id ids payload =
    if is_text (get "original_invoice_id" payload) invoice_id
    then (do refund_id ← required_str payload "refund_id"; ok (refund_id ∷ ids))
    else ok ids

unfoldable pub prior_refund_ids : String → List Payload → Result (List String)
prior_refund_ids invoice_id stored = fold_each (add_prior_refund invoice_id) [] stored

-- `payload.get("refund_id") in prior_refund_ids`
abbrev pub is_prior : List String → Option String → Bool
is_prior ids none = bms_gui.Prelude.false
is_prior ids (some id) = contains id ids

-- The lines of those refunds are taken off.
unfoldable pub take_refunded : List String → Dict LineKey ℤ → Payload → Result (Dict LineKey ℤ)
take_refunded ids remaining payload =
    if is_prior ids (as_text (get "refund_id" payload))
    then (do
      key ← line_key_of payload
      quantity ← required_int payload "quantity"
      ok (insert key (lookup_or key (pos 0) remaining -ℤ quantity) remaining))
    else ok remaining

-- The quantities that the command asks back.
unfoldable pub add_requested : Dict LineKey ℤ → List RefundLineCommand → Dict LineKey ℤ
add_requested requested [] = requested
add_requested requested (line ∷ lines) =
    let key : LineKey = (line.item_id, line.unit_price_minor) in
    add_requested (insert key (lookup_or key (pos 0) requested +ℤ line.quantity) requested) lines

unfoldable pub check_refundable : Dict LineKey ℤ → LineKey × ℤ → Result (Unit {0})
check_refundable remaining (key, requested_quantity) =
    fail_if (leb_ℤ (lookup_or key (pos 0) remaining) (pos 0)) (
      billing_error (
        "refund line "
        & key.0
        & " at unit price "
        & int_text key.1
        & " is not available on original invoice"))
    >> fail_if (ltb_ℤ (lookup_or key (pos 0) remaining) requested_quantity) (
        billing_error (
          "refund quantity for item "
          & key.0
          & " at unit price "
          & int_text key.1
          & " exceeds remaining refundable quantity"))

-- The cost of the goods of a line of the invoice, and their number.
abbrev pub Costs : Type 0
Costs = record { quantity : ℤ; cogs_minor : ℤ }

abbrev no_costs : Costs
no_costs = record { quantity = pos 0; cogs_minor = pos 0 }

unfoldable pub add_costs : String → Dict LineKey Costs → Payload → Result (Dict LineKey Costs)
add_costs invoice_id costs payload =
    if is_text (get "invoice_id" payload) invoice_id
    then (do
      key ← line_key_of payload
      quantity ← required_int payload "quantity"
      cogs ← optional_int payload "cogs_minor"
      let found = lookup_or key no_costs costs
      ok (
          insert key
            (record {
              quantity = found.quantity +ℤ quantity;
              cogs_minor = found.cogs_minor +ℤ cogs;
            })
            costs))
    else ok costs

-- The unit costs, of the lines with a positive quantity.
unfoldable pub unit_costs : Dict LineKey Costs → Dict LineKey ℤ
unit_costs [] = []
unit_costs ((key, costs) ∷ rest) =
    let others = unit_costs rest in
    if ltb_ℤ (pos 0) costs.quantity
    then (key, floor_div costs.cogs_minor costs.quantity) ∷ others
    else others

-- `_original_invoice_cogs_unit_costs`, over the payloads of the invoice lines.
unfoldable pub original_invoice_cogs_unit_costs : String → List Payload → Result (Dict LineKey ℤ)
original_invoice_cogs_unit_costs invoice_id lines =
    fold_each (add_costs invoice_id) [] lines >>= λ costs. ok (unit_costs costs)

-- The cost of the goods that come back with each line.
unfoldable pub cogs_of_lines : Dict LineKey ℤ → List RefundLineCommand → List ℤ
cogs_of_lines costs [] = []
cogs_of_lines costs (line ∷ lines) =
    (if line.restock
      then line.quantity *ℤ lookup_or (line.item_id, line.unit_price_minor) (pos 0) costs
      else pos 0)
    ∷ cogs_of_lines costs lines

module _ (env : Env) where
  -- `_validate_refund_against_original_invoice`; the lines of the invoice, the refunds and their
  -- lines are read in this order, each before it is used.
  unfoldable pub validate_refund_against_original_invoice :
      CreateRefundCommand → World → Result (Unit {0})
  validate_refund_against_original_invoice command w = do
    lines ← read_payloads env invoice_lines w
    invoiced ← original_invoice_quantities command.original_invoice_id lines
    fail_if (is_empty invoiced) (
        billing_error
          ("original invoice " & command.original_invoice_id & " has no refundable lines"))
    refunded ← read_payloads env refunds w
    ids ← prior_refund_ids command.original_invoice_id refunded
    taken ← read_payloads env refund_lines w
    remaining ← fold_each (take_refunded ids) invoiced taken
    check_each (add_requested [] command.lines) (check_refundable remaining)

  -- `_refund_cogs_by_line`
  unfoldable pub refund_cogs_by_line : CreateRefundCommand → World → Result (List ℤ)
  refund_cogs_by_line command w = do
    lines ← read_payloads env invoice_lines w
    costs ← original_invoice_cogs_unit_costs command.original_invoice_id lines
    ok (cogs_of_lines costs command.lines)
