-- ===== src/Recovery/Effects.antt =====
-- The durable records of an unfinished operation, as src/bms/app/recovery.py looks for them.
pub mod Safe
pub mod Written
use bms_gui.Prelude.{
  String, Bool, false, ◌||◌, Option, none, some, List, [], ◌∷◌, ◌++◌, if◌then◌else◌,
}
use bms_gui.Json.{Value, Values, nil, cons, str, arr, Payload, get, is_text, as_text}
use bms_gui.Result.{Result, ok, ◌>>=◌}
use bms_gui.Store.{
  FilePath, journal_entries, journal_lines, items, stock_movements, invoices, invoice_lines,
  refunds, refund_lines, Env, World, read_payloads,
}

-- A file, a field, the value that it would have, and what it would mean.
pub record Check : Type 0 where
  pub path : FilePath
  pub field_name : String
  pub expected_value : String
  pub reason : String

abbrev pub check : FilePath → String → String → String → Check
check path field_name expected_value reason = record {
  path = path;
  field_name = field_name;
  expected_value = expected_value;
  reason = reason;
}

-- `any(payload.get(field_name) == expected_value for payload in payloads)`
unfoldable pub any_with : String → String → List Payload → Bool
any_with field_name expected_value [] = false
any_with field_name expected_value (payload ∷ rest) =
    is_text (get field_name payload) expected_value || any_with field_name expected_value rest

-- The checks for an id that the payload may hold.
abbrev pub for_text : Option String → (String → List Check) → List Check
for_text none checks = []
for_text (some id) checks = checks id

abbrev pub journal_checks : String → List Check
journal_checks journal_id =
    check journal_entries "journal_id" journal_id "journal entry exists"
    ∷ check journal_lines "journal_id" journal_id "journal lines exist"
    ∷ []

abbrev pub movement_check : String → Check
movement_check movement_id = check stock_movements "movement_id" movement_id "stock movement exists"

-- The loop over `movement_ids`.
abbrev pub movement_checks_of : Values → List Check
movement_checks_of nil = []
movement_checks_of (cons (str movement_id) rest) =
    movement_check movement_id ∷ movement_checks_of rest
movement_checks_of (cons _ rest) = movement_checks_of rest

abbrev pub movement_checks : Option Value → List Check
movement_checks (some (arr ids)) = movement_checks_of ids
movement_checks _ = []

-- `_billing_invoice_side_effects`
unfoldable pub billing_invoice_checks : Payload → List Check
billing_invoice_checks payload =
    for_text (as_text (get "invoice_id" payload)) (λ invoice_id.
      check invoices "invoice_id" invoice_id "invoice exists"
      ∷ check invoice_lines "invoice_id" invoice_id "invoice lines exist"
      ∷ [])
    ++ for_text (as_text (get "journal_id" payload)) journal_checks
    ++ movement_checks (get "movement_ids" payload)

-- `_billing_refund_side_effects`
unfoldable pub billing_refund_checks : Payload → List Check
billing_refund_checks payload =
    for_text (as_text (get "refund_id" payload)) (λ refund_id.
      check refunds "refund_id" refund_id "refund exists"
      ∷ check refund_lines "refund_id" refund_id "refund lines exist"
      ∷ [])
    ++ for_text (as_text (get "journal_id" payload)) journal_checks
    ++ movement_checks (get "movement_ids" payload)

-- The checks for the operation of a pending transaction; none for an operation that it does not
-- know.
unfoldable pub checks_of : Payload → List Check
unfolding billing_invoice_checks billing_refund_checks
checks_of payload =
    let operation = get "operation" payload in
    if is_text operation "billing.create_invoice"
    then billing_invoice_checks payload
    else if is_text operation "billing.create_refund"
    then billing_refund_checks payload
    else if is_text operation "accounting.post_journal"
    then for_text (as_text (get "journal_id" payload)) journal_checks
    else if is_text operation "inventory.commit_movement"
    then for_text (as_text (get "movement_id" payload)) (λ id. movement_check id ∷ [])
    else if is_text operation "inventory.register_item"
    then for_text (as_text (get "item_id" payload))
        (λ id. check items "item_id" id "item registration exists" ∷ [])
    else []

module _ (env : Env) where
  -- `_record_effects`
  unfoldable pub record_effects : List Check → World → Result (List String)
  record_effects [] w = ok []
  record_effects (c ∷ checks) w = do
    payloads ← read_payloads env c.path w
    reasons ← record_effects checks w
    ok (if any_with c.field_name c.expected_value payloads then c.reason ∷ reasons else reasons)

  -- `_durable_side_effects_for_pending_operation`
  unfoldable pub durable_side_effects : Payload → World → Result (List String)
  durable_side_effects payload w = record_effects (checks_of payload) w
