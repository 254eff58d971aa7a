-- ===== src/Billing/Payloads.antt =====
-- The stored payloads that src/bms/domain/billing/service.py reads.
use bms_gui.Prelude.{String, not, Option, none, some, List, ℤ}
use bms_gui.Fields.{◌&◌, truthy, int_field}
use bms_gui.Json.{Payload, Value, int, get, is_text, as_text}
use bms_gui.Result.{Result, ok, err, billing_error, ◌>>◌, fail_if, check_each}

-- `_required_str`
unfoldable pub required_str : Payload → String → Result String
required_str payload key = elim (as_text (get key payload)) [
  | none ↦
      err (billing_error ("stored billing payload field " & key & " is not a non-empty string"))
  | some s ↦
      fail_if (not (truthy s))
        (billing_error ("stored billing payload field " & key & " is not a non-empty string"))
      >> ok s
]

-- An integer field; a missing one is no integer.
abbrev pub int_value : Option Value → Option ℤ
int_value (some (int n)) = some n
int_value _ = none

-- `_required_int`
unfoldable pub required_int : Payload → String → Result ℤ
required_int payload key = elim (int_value (get key payload)) [
  | none ↦ err (billing_error ("stored billing payload field " & key & " is not an integer"))
  | some n ↦ ok n
]

-- `_optional_int`
unfoldable pub optional_int : Payload → String → Result ℤ
unfolding int_field
optional_int payload key = int_field billing_error "stored billing payload field " key payload

-- `_reject_duplicate_invoice` and `_reject_duplicate_refund`, over the payloads of the file.
unfoldable pub reject_duplicate_invoice : String → List Payload → Result (Unit {0})
unfolding check_each
reject_duplicate_invoice invoice_id invoices = check_each invoices λ payload.
    fail_if (is_text (get "invoice_id" payload) invoice_id)
      (billing_error ("invoice " & invoice_id & " is already completed"))

unfoldable pub reject_duplicate_refund : String → List Payload → Result (Unit {0})
unfolding check_each
reject_duplicate_refund refund_id refunds = check_each refunds λ payload.
    fail_if (is_text (get "refund_id" payload) refund_id)
      (billing_error ("refund " & refund_id & " is already completed"))
