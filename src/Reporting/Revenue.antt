-- ===== src/Reporting/Revenue.antt =====
-- `get_business_unit_revenue_report` of src/bms/domain/reporting/service.py.
use bms_gui.Prelude.{String, Option, List, [], map, ℤ, pos, ◌+ℤ◌, ◌-ℤ◌, str_eq, if◌then◌else◌}
use bms_gui.Dict.{Dict, lookup_or, insert}
use bms_gui.Dict.Keys.{string_key, sorted_items}
use bms_gui.Fields.{◌&◌}
use bms_gui.Json.{Payload}
use bms_gui.Result.{Result, ok, ◌>>=◌, fold_each}
use bms_gui.Store.{Env, World, invoices, invoice_lines, refunds, refund_lines, read_payloads}
use bms_gui.Reporting.Models.{BusinessUnitRevenueRow, BusinessUnitRevenueReport}
use bms_gui.Reporting.Payloads.{str_payload, int_payload, business_unit_payload, in_period}
use bms_gui.Reporting.Availability.{pairs_of, get_or_raise}

-- `{"invoice": 0, "refund": 0}`
abbrev pub UnitTotals : Type 0
UnitTotals = record { invoice : ℤ; refund : ℤ }

abbrev pub no_sales : UnitTotals
no_sales = record { invoice = pos 0; refund = pos 0 }

-- Where the amount of a line goes.
abbrev pub add_invoice : ℤ → UnitTotals → UnitTotals
add_invoice n totals = record { invoice = totals.invoice +ℤ n; refund = totals.refund }

abbrev pub add_refund : ℤ → UnitTotals → UnitTotals
add_refund n totals = record { invoice = totals.invoice; refund = totals.refund +ℤ n }

module _ (period_id : Option String) (currency : String) where
  -- The end of the bodies of both loops: the subtotal of a line in the currency.
  unfoldable pub add_unit_line :
      (ℤ → UnitTotals → UnitTotals)
      → Dict String UnitTotals
      → Payload
      → Result (Dict String UnitTotals)
  add_unit_line add totals payload = do
    found ← str_payload payload "currency"
    let counted : Result (Dict String UnitTotals) = do
      unit ← business_unit_payload payload
      amount ← int_payload payload "line_subtotal_minor"
      ok (insert unit (add amount (lookup_or unit no_sales totals)) totals)
    if str_eq found currency then counted else ok totals

  unfoldable pub add_invoice_line :
      Dict String String → Dict String UnitTotals → Payload → Result (Dict String UnitTotals)
  add_invoice_line invoice_periods totals payload = do
    invoice_id ← str_payload payload "invoice_id"
    found ←
        get_or_raise ("invoice line references unknown invoice " & invoice_id) invoice_id
          invoice_periods
    if in_period period_id found then add_unit_line add_invoice totals payload else ok totals

  unfoldable pub add_refund_line :
      Dict String String → Dict String UnitTotals → Payload → Result (Dict String UnitTotals)
  add_refund_line refund_periods totals payload = do
    refund_id ← str_payload payload "refund_id"
    found ←
        get_or_raise ("refund line references unknown refund " & refund_id) refund_id refund_periods
    if in_period period_id found then add_unit_line add_refund totals payload else ok totals

  -- A row of the report.
  unfoldable pub revenue_row : String × UnitTotals → BusinessUnitRevenueRow
  revenue_row (unit, totals) = record {
    business_unit = unit;
    currency = currency;
    invoice_subtotal_minor = totals.invoice;
    refund_subtotal_minor = totals.refund;
    net_revenue_minor = totals.invoice -ℤ totals.refund;
  }

  unfoldable pub revenue_rows : Dict String UnitTotals → List BusinessUnitRevenueRow
  revenue_rows totals = map revenue_row (sorted_items totals)

module _ (env : Env) where
  unfoldable pub get_business_unit_revenue_report :
      Option String → String → World → Result BusinessUnitRevenueReport
  get_business_unit_revenue_report period_id currency w = do
    invoiced ← read_payloads env invoices w
    invoice_periods ← pairs_of "invoice_id" "period_id" invoiced
    refunded ← read_payloads env refunds w
    refund_periods ← pairs_of "refund_id" "period_id" refunded
    sold ← read_payloads env invoice_lines w
    invoiced_totals ← fold_each (add_invoice_line period_id currency invoice_periods) [] sold
    returned ← read_payloads env refund_lines w
    totals ← fold_each (add_refund_line period_id currency refund_periods) invoiced_totals returned
    ok (record { period_id = period_id; rows = revenue_rows period_id currency totals })
