-- ===== src/Facade/Schemas.antt =====
-- The fields of the schemas of src/bms/app/commands.py and of the domain, as pydantic reads them:
-- a field that is missing has its default, or is an error.
use bms_gui.Prelude.{
  String, Bool, true, not, ◌&&◌, Option, none, some, List, [], ◌∷◌, ℤ, pos, is_empty, leb_ℤ, str_in,
  if◌then◌else◌,
}
use bms_gui.Fields.{◌&◌, truthy}
use bms_gui.Json.{
  Value, null, bool, int, str, arr, obj, Values, nil, cons, Payload, nothing, entry, get,
}
use bms_gui.Result.{Result, ok, err, validation_error, fail_if, ◌>>=◌, ◌>>◌}

-- What pydantic makes of the value of a Boolean field that is not strict.
pub record FacadeEnv : Type 0 where
  pub lax_bool : Value → Option Bool

-- `NonEmptyStr`
unfoldable pub required_text : String → Payload → Result String
required_text key payload = elim (get key payload) [
  | some (str s) ↦ if truthy s then ok s else err (validation_error (key & " is empty"))
  | _ ↦ err (validation_error (key & " is not a text"))
]

-- `StrictStr | None = None` with `_optional_strings_cannot_be_empty`.
unfoldable pub optional_text : String → Payload → Result (Option String)
optional_text key payload = elim (get key payload) [
  | none ↦ ok none
  | some null ↦ ok none
  | some (str s) ↦
      if truthy s then ok (some s) else err (validation_error (key & " cannot be empty"))
  | _ ↦ err (validation_error (key & " is not a text"))
]

-- `extra="forbid"`
abbrev pub keys_known : List String → Payload → Bool
keys_known known nothing = true
keys_known known (entry key value rest) = str_in key known && keys_known known rest

unfoldable pub forbid_extra : List String → Payload → Result (Unit {0})
forbid_extra known payload =
    fail_if (not (keys_known known payload)) (validation_error "extra fields are forbidden")

-- `StrictBool = True`
unfoldable pub strict_bool : String → Payload → Result Bool
strict_bool key payload = elim (get key payload) [
  | none ↦ ok true
  | some (bool b) ↦ ok b
  | _ ↦ err (validation_error (key & " is not a Boolean"))
]

-- `NonEmptyStr` with a default.
unfoldable pub text_or : String → String → Payload → Result String
text_or default key payload = elim (get key payload) [
  | none ↦ ok default
  | some value ↦ required_text key payload
]

-- The field of an object.
unfoldable pub required_object : String → Payload → Result Payload
required_object key payload = elim (get key payload) [
  | some (obj fields) ↦ ok fields
  | _ ↦ err (validation_error (key & " is not an object"))
]

-- `StrictStr = ""`
unfoldable pub text_or_empty : String → Payload → Result String
text_or_empty key payload = elim (get key payload) [
  | none ↦ ok ""
  | some (str s) ↦ ok s
  | _ ↦ err (validation_error (key & " is not a text"))
]

-- `StrictInt`
unfoldable pub required_int : String → Payload → Result ℤ
required_int key payload = elim (get key payload) [
  | some (int n) ↦ ok n
  | _ ↦ err (validation_error (key & " is not an integer"))
]

-- `StrictInt = 0`
unfoldable pub int_or_zero : String → Payload → Result ℤ
int_or_zero key payload = elim (get key payload) [
  | none ↦ ok (pos 0)
  | some value ↦ required_int key payload
]

-- `Field(ge=0)`
unfoldable pub check_ge_zero : ℤ → Result (Unit {0})
check_ge_zero n =
    fail_if (not (leb_ℤ (pos 0) n))
      (validation_error "the field must be greater than or equal to 0")

-- `bool = True`
unfoldable pub bool_or_true : FacadeEnv → String → Payload → Result Bool
bool_or_true facade key payload = elim (get key payload) [
  | none ↦ ok true
  | some value ↦ elim (facade.lax_bool value) [
    | none ↦ err (validation_error (key & " is not a Boolean"))
    | some b ↦ ok b
  ]
]

-- The elements of `tuple[Schema, ...]`.
unfoldable pub objects_of : {A : Type 0} → (Payload → Result A) → Values → Result (List A)
objects_of schema nil = ok []
objects_of schema (cons (obj fields) values) = do
  first ← schema fields
  rest ← objects_of schema values
  ok (first ∷ rest)
objects_of schema (cons _ values) = err (validation_error "an element is not an object")

-- `tuple[Schema, ...] = Field(min_length=1)`
unfoldable pub required_lines : {A : Type 0} → (Payload → Result A) → Payload → Result (List A)
required_lines schema payload = elim (get "lines" payload) [
  | some (arr values) ↦ do
    lines ← objects_of schema values
    fail_if (is_empty lines) (validation_error "at least one line is required")
    ok lines
  | _ ↦ err (validation_error "lines is not a list")
]
