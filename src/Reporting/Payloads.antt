-- ===== src/Reporting/Payloads.antt =====
-- The payload fields that src/bms/domain/reporting/service.py reads, and how it orders its rows.
use bms_gui.Prelude.{
  String, Bool, true, Option, none, some, List, [], ◌∷◌, ℤ, str_eq, leb_ℤ, if◌then◌else◌,
}
use bms_gui.Dict.Keys.{str_le}
use bms_gui.Fields.{◌&◌, truthy}
use bms_gui.Json.{Value, Values, nil, cons, str, arr, Payload, get, as_text}
use bms_gui.Result.{Result, ok, err, reporting_error}
use bms_gui.Billing.Payloads.{int_value}
use bms_gui.Inventory.Items.{business_unit_of}

-- `_text_payload`
unfoldable pub text_payload : Payload → String → Result String
text_payload payload key = elim (as_text (get key payload)) [
  | none ↦ err (reporting_error ("stored report payload field " & key & " is not a string"))
  | some s ↦ ok s
]

-- `isinstance(value, str) and value`
abbrev pub nonempty : Option String → Option String
nonempty none = none
nonempty (some s) = if truthy s then some s else none

-- `_str_payload`
unfoldable pub str_payload : Payload → String → Result String
str_payload payload key = elim (nonempty (as_text (get key payload))) [
  | none ↦
      err (reporting_error ("stored report payload field " & key & " is not a non-empty string"))
  | some s ↦ ok s
]

-- `_business_unit_payload`
unfoldable pub business_unit_payload : Payload → Result String
business_unit_payload payload = elim (nonempty (business_unit_of (get "business_unit" payload))) [
  | none ↦
      err (reporting_error "stored report payload field business_unit is not a non-empty string")
  | some s ↦ ok s
]

-- `_int_payload`
unfoldable pub int_payload : Payload → String → Result ℤ
int_payload payload key = elim (int_value (get key payload)) [
  | none ↦ err (reporting_error ("stored report payload field " & key & " is not an integer"))
  | some n ↦ ok n
]

-- The texts of a JSON list, where it holds only texts that are not empty.
abbrev pub texts_of : Values → Option (List String)
texts_of nil = some []
texts_of (cons (str s) rest) =
    let others = texts_of rest in
    if truthy s then elim others [ none ↦ none | some ss ↦ some (s ∷ ss) ] else none
texts_of (cons _ rest) = none

abbrev pub text_list : Option Value → Option (List String)
text_list (some (arr vs)) = texts_of vs
text_list _ = none

-- `_string_tuple_payload`
unfoldable pub string_tuple_payload : Payload → String → Result (List String)
string_tuple_payload payload key = elim (text_list (get key payload)) [
  | none ↦ err (reporting_error ("stored report payload field " & key & " is not a string list"))
  | some ss ↦ ok ss
]

-- `period_id is not None and found != period_id`, negated.
abbrev pub in_period : Option String → String → Bool
in_period none found = true
in_period (some period_id) found = str_eq found period_id

-- Python's order of pairs of texts.
abbrev pub pair_le : String × String → String × String → Bool
pair_le (a, b) (c, d) = if str_eq a c then str_le b d else str_le a c

-- Python's order of an invoice, an item and a unit price.
abbrev pub line_le : String × String × ℤ → String × String × ℤ → Bool
line_le (a, b, m) (c, d, n) =
    if str_eq a c then (if str_eq b d then leb_ℤ m n else str_le b d) else str_le a c
