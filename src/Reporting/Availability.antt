-- ===== src/Reporting/Availability.antt =====
-- `get_refund_availability_report` of src/bms/domain/reporting/service.py: what can still be
-- refunded of each line that was sold.
use bms_gui.Prelude.{
  String, Bool, Option, none, some, List, [], map, ℤ, pos, ◌+ℤ◌, ◌-ℤ◌, ◌*ℤ◌, leb_ℤ, sort_by,
  if◌then◌else◌,
}
use bms_gui.Dict.{Dict, lookup, lookup_or, insert}
use bms_gui.Dict.Keys.{string_key, SoldKey, sold_key}
use bms_gui.Fields.{◌&◌}
use bms_gui.Json.{Payload}
use bms_gui.Result.{Result, ok, err, reporting_error, ◌>>=◌, fold_each}
use bms_gui.Store.{Env, World, invoices, invoice_lines, refunds, refund_lines, read_payloads}
use bms_gui.Reporting.Models.{RefundAvailabilityReportRow, RefundAvailabilityReport}
use bms_gui.Reporting.Payloads.{str_payload, text_payload, int_payload, in_period, line_le}

-- A dictionary from one text field of the payloads to another.
unfoldable pub add_pair :
    String → String → Dict String String → Payload → Result (Dict String String)
add_pair key_field value_field found payload = do
  key ← str_payload payload key_field
  value ← str_payload payload value_field
  ok (insert key value found)

unfoldable pub pairs_of : String → String → List Payload → Result (Dict String String)
pairs_of key_field value_field documents = fold_each (add_pair key_field value_field) [] documents

-- `found.get(key)`, and the error where it is None.
unfoldable pub get_or_raise : String → String → Dict String String → Result String
get_or_raise message key found = elim (lookup key found) [
  | none ↦ err (reporting_error message)
  | some value ↦ ok value
]

-- A line of `original_lines`.
pub record OriginalLine : Type 0 where
  pub invoice_id : String
  pub period_id : String
  pub item_id : String
  pub description : String
  pub currency : String
  pub unit_price_minor : ℤ
  pub quantity : ℤ

-- The larger of a number and 0.
abbrev pub at_least_zero : ℤ → ℤ
at_least_zero n = if leb_ℤ n (pos 0) then pos 0 else n

module _ (invoice_periods : Dict String String) (period_id : Option String) where
  -- The body of the loop over the invoice lines, behind the filter by period.
  unfoldable pub add_sold :
      String → String → Dict SoldKey OriginalLine → Payload → Result (Dict SoldKey OriginalLine)
  add_sold invoice_id invoice_period lines payload = do
    item_id ← str_payload payload "item_id"
    unit_price ← int_payload payload "unit_price_minor"
    description ← text_payload payload "description"
    currency ← str_payload payload "currency"
    let fresh : OriginalLine = record {
      invoice_id = invoice_id;
      period_id = invoice_period;
      item_id = item_id;
      description = description;
      currency = currency;
      unit_price_minor = unit_price;
      quantity = pos 0;
    }
    let line = lookup_or (invoice_id, item_id, unit_price) fresh lines
    quantity ← int_payload payload "quantity"
    ok (
        insert (invoice_id, item_id, unit_price)
          (record line { quantity = line.quantity +ℤ quantity }) lines)

  unfoldable pub add_original_line :
      Dict SoldKey OriginalLine → Payload → Result (Dict SoldKey OriginalLine)
  add_original_line lines payload = do
    invoice_id ← str_payload payload "invoice_id"
    invoice_period ←
        get_or_raise ("invoice line references unknown invoice " & invoice_id) invoice_id
          invoice_periods
    if in_period period_id invoice_period
        then add_sold invoice_id invoice_period lines payload
        else ok lines

  -- The body of the loop over the refund lines, behind the filter by period.
  unfoldable pub add_returned : String → Dict SoldKey ℤ → Payload → Result (Dict SoldKey ℤ)
  add_returned invoice_id quantities payload = do
    item_id ← str_payload payload "item_id"
    unit_price ← int_payload payload "unit_price_minor"
    quantity ← int_payload payload "quantity"
    let key : SoldKey = (invoice_id, item_id, unit_price)
    ok (insert key (lookup_or key (pos 0) quantities +ℤ quantity) quantities)

  unfoldable pub add_refund_line :
      Dict String String → Dict SoldKey ℤ → Payload → Result (Dict SoldKey ℤ)
  add_refund_line refund_invoices quantities payload = do
    refund_id ← str_payload payload "refund_id"
    invoice_id ←
        get_or_raise ("refund line references unknown refund " & refund_id) refund_id
          refund_invoices
    invoice_period ←
        get_or_raise ("refund " & refund_id & " references unknown invoice " & invoice_id)
          invoice_id invoice_periods
    if in_period period_id invoice_period
        then add_returned invoice_id quantities payload
        else ok quantities

-- A row of the report.
unfoldable pub availability_row :
    Dict SoldKey ℤ → SoldKey × OriginalLine → RefundAvailabilityReportRow
availability_row refunded_quantities (key, line) =
    let refunded = lookup_or key (pos 0) refunded_quantities in
    let remaining = at_least_zero (line.quantity -ℤ refunded) in
    record {
      invoice_id = key.0;
      period_id = line.period_id;
      item_id = key.1;
      description = line.description;
      currency = line.currency;
      unit_price_minor = key.2;
      original_quantity = line.quantity;
      refunded_quantity = refunded;
      remaining_quantity = remaining;
      original_subtotal_minor = line.quantity *ℤ key.2;
      refunded_subtotal_minor = refunded *ℤ key.2;
      remaining_subtotal_minor = remaining *ℤ key.2;
    }

abbrev pub availability_row_le : RefundAvailabilityReportRow → RefundAvailabilityReportRow → Bool
availability_row_le a b =
    line_le (a.invoice_id, a.item_id, a.unit_price_minor)
      (b.invoice_id, b.item_id, b.unit_price_minor)

abbrev pub availability_rows :
    Dict SoldKey ℤ → Dict SoldKey OriginalLine → List RefundAvailabilityReportRow
availability_rows refunded_quantities lines = map (availability_row refunded_quantities) lines

module _ (env : Env) where
  -- The files are read in this order, each before the loop over it.
  unfoldable pub get_refund_availability_report :
      Option String → World → Result RefundAvailabilityReport
  get_refund_availability_report period_id w = do
    invoiced ← read_payloads env invoices w
    invoice_periods ← pairs_of "invoice_id" "period_id" invoiced
    sold ← read_payloads env invoice_lines w
    lines ← fold_each (add_original_line invoice_periods period_id) [] sold
    refunded ← read_payloads env refunds w
    refund_invoices ← pairs_of "refund_id" "original_invoice_id" refunded
    returned ← read_payloads env refund_lines w
    quantities ← fold_each (add_refund_line invoice_periods period_id refund_invoices) [] returned
    ok (record {
      period_id = period_id;
      rows = sort_by availability_row_le (availability_rows quantities lines);
    })
