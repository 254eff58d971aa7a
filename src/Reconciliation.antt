-- ===== src/Reconciliation.antt =====
-- src/bms/domain/reconciliation: the billing and inventory files against the ledger.
pub mod Checks
use bms_gui.Prelude.{
  String, Bool, not, ◌&&◌, Option, none, some, List, [], ◌∷◌, ℤ, pos, ◌+ℤ◌, ◌-ℤ◌, eqb_ℤ, str_eq,
  if◌then◌else◌,
}
use bms_gui.Dict.{Dict, lookup, insert}
use bms_gui.Dict.Keys.{string_key}
use bms_gui.Fields.{◌&◌, truthy, int_field}
use bms_gui.Json.{Payload, get, as_text}
use bms_gui.Result.{Result, ok, err, reconciliation_error, ◌>>=◌, ◌>>◌, fail_if, fold_each}
use bms_gui.Store.{
  Env, World, FilePath, invoices, invoice_lines, refunds, refund_lines, read_payloads,
}
use bms_gui.Accounting.Models.{LedgerBalance, baseline_chart_of_accounts}
use bms_gui.Accounting.Balances.{get_ledger_balances}
use bms_gui.Accounting.Periods.{load_closed_periods}
use bms_gui.Inventory.Stock.{get_inventory_value_delta_minor}

pub record ReconciliationCheck : Type 0 where
  pub name : String
  pub expected_minor : ℤ
  pub actual_minor : ℤ
  pub difference_minor : ℤ
  pub passed : Bool

pub record ReconciliationReport : Type 0 where
  pub period_id : String
  pub checks : List ReconciliationCheck

-- `ReconciliationReport.passed`
abbrev pub all_passed : List ReconciliationCheck → Bool
all_passed [] = bms_gui.Prelude.true
all_passed (check ∷ checks) = check.passed && all_passed checks

-- `_check`
unfoldable pub check : String → ℤ → ℤ → ReconciliationCheck
check name expected actual = record {
  name = name;
  expected_minor = expected;
  actual_minor = actual;
  difference_minor = actual -ℤ expected;
  passed = eqb_ℤ (actual -ℤ expected) (pos 0);
}

-- `_balance`, `_debit_total` and `_credit_total`: a field of the balance of an account, or 0.
unfoldable pub balance : (LedgerBalance → ℤ) → Dict String LedgerBalance → String → ℤ
unfolding lookup
balance field balances account_code = elim (lookup account_code balances) [
  | none ↦ pos 0
  | some b ↦ field b
]

-- `_str_payload`
unfoldable pub str_payload : Payload → String → Result String
str_payload payload key = elim (as_text (get key payload)) [
  | none ↦ err (
      reconciliation_error
        ("stored reconciliation payload field " & key & " is not a non-empty string"))
  | some s ↦
      fail_if (not (truthy s)) (
        reconciliation_error
          ("stored reconciliation payload field " & key & " is not a non-empty string"))
      >> ok s
]

-- `_int_payload`
unfoldable pub int_payload : String → Payload → Result ℤ
unfolding int_field
int_payload = int_field reconciliation_error "stored reconciliation payload field "

-- `_period_payloads`
unfoldable pub period_payloads : String → List Payload → Result (List Payload)
unfolding str_payload
period_payloads period_id [] = ok []
period_payloads period_id (payload ∷ rest) = do
  found ← str_payload payload "period_id"
  others ← period_payloads period_id rest
  ok (if str_eq found period_id then payload ∷ others else others)

-- The sum of a field over payloads.
unfoldable pub add_amount : String → ℤ → Payload → Result ℤ
unfolding int_payload
add_amount field total payload = do n ← int_payload field payload; ok (total +ℤ n)

unfoldable pub sum_field : String → List Payload → Result ℤ
unfolding add_amount fold_each
sum_field field payloads = fold_each (add_amount field) (pos 0) payloads

-- The period of each document, by its id.
unfoldable pub add_period : String → Dict String String → Payload → Result (Dict String String)
unfolding insert str_payload
add_period id_key document_periods payload = do
  id ← str_payload payload id_key
  period_id ← str_payload payload "period_id"
  ok (insert id period_id document_periods)

-- `invoice_periods.get(id) == period_id`
abbrev pub is_period : Option String → String → Bool
is_period none period_id = bms_gui.Prelude.false
is_period (some found) period_id = str_eq found period_id

unfoldable pub add_cogs : String → Dict String String → String → ℤ → Payload → Result ℤ
unfolding lookup str_payload add_amount
add_cogs id_key document_periods period_id total payload = do
  id ← str_payload payload id_key
  if is_period (lookup id document_periods) period_id
      then add_amount "cogs_minor" total payload
      else ok total

module _ (env : Env) where
  -- `_invoice_subtotal_minor`, `_invoice_tax_minor` and the same of the refunds.
  unfoldable pub period_total : FilePath → String → String → World → Result ℤ
  period_total path field period_id w = do
    payloads ← read_payloads env path w
    chosen ← period_payloads period_id payloads
    sum_field field chosen

  -- `_invoice_cogs_minor`
  unfoldable pub invoice_cogs_minor : String → World → Result ℤ
  invoice_cogs_minor period_id w = do
    documents ← read_payloads env invoices w
    document_periods ← fold_each (add_period "invoice_id") [] documents
    lines ← read_payloads env invoice_lines w
    fold_each (add_cogs "invoice_id" document_periods period_id) (pos 0) lines

  -- `_refund_cogs_minor`
  unfoldable pub refund_cogs_minor : String → World → Result ℤ
  refund_cogs_minor period_id w = do
    documents ← read_payloads env refunds w
    document_periods ← fold_each (add_period "refund_id") [] documents
    lines ← read_payloads env refund_lines w
    fold_each (add_cogs "refund_id" document_periods period_id) (pos 0) lines

  -- `get_reconciliation_report`; the accounting service is built anew over the store.
  unfoldable pub get_reconciliation_report : String → World → Result ReconciliationReport
  get_reconciliation_report period_id w = do
    fail_if (not (truthy period_id)) (reconciliation_error "period_id is required")
    closed ← load_closed_periods env w
    balances ← get_ledger_balances env baseline_chart_of_accounts period_id w
    inventory_value ← get_inventory_value_delta_minor env period_id w
    invoice_tax ← period_total invoices "tax_minor" period_id w
    refund_tax ← period_total refunds "tax_minor" period_id w
    invoice_subtotal ← period_total invoices "subtotal_minor" period_id w
    refund_subtotal ← period_total refunds "subtotal_minor" period_id w
    invoice_cogs ← invoice_cogs_minor period_id w
    refund_cogs ← refund_cogs_minor period_id w
    let net = balance (λ (b : LedgerBalance). b.balance_minor) balances
    let credits = balance (λ (b : LedgerBalance). b.credit_total_minor) balances
    let debits = balance (λ (b : LedgerBalance). b.debit_total_minor) balances
    ok (record {
      period_id = period_id;
      checks =
          check "inventory_subledger_to_ledger" inventory_value (net "1200")
          ∷ check "tax_report_to_tax_payable" (invoice_tax -ℤ refund_tax) (net "2100")
          ∷ check "sales_report_to_sales_revenue" invoice_subtotal (credits "4000")
          ∷ check "refund_report_to_sales_returns" refund_subtotal (debits "4100")
          ∷ check "billing_cogs_to_cogs_ledger" (invoice_cogs -ℤ refund_cogs) (net "5000")
          ∷ [];
    })
