-- ===== src/Json.antt =====
-- JSON values, as the payloads of src/bms/storage/file_store/core_store.py hold them: what
-- `json.loads` gives back for the dictionaries that the services append.
use bms_gui.Prelude.{
  String, Option, none, some, List, [], ◌∷◌, ℤ, pos, Bool, false, str_eq, if◌then◌else◌,
}

-- A dictionary holds values and a value may be a dictionary, so the lists are part of the block.
mutual
  pub data Value : Type 0 where
    null : Value
    bool : Bool → Value
    int : ℤ → Value
    str : String → Value
    arr : Values → Value
    obj : Payload → Value

  pub data Values : Type 0 where
    nil : Values
    cons : Value → Values → Values

  pub data Payload : Type 0 where
    nothing : Payload
    entry : String → Value → Payload → Payload

-- A dictionary display, `{"key": value, ...}`.
abbrev pub dict : List (String × Value) → Payload
dict [] = nothing
dict ((k, v) ∷ rest) = entry k v (dict rest)

-- A list of texts, `[...]`.
abbrev pub str_list : List String → Values
str_list [] = nil
str_list (s ∷ rest) = cons (str s) (str_list rest)

-- `payload.get(key)`; `none` where the key is missing.
abbrev pub get : String → Payload → Option Value
get key nothing = none
get key (entry k v rest) = if str_eq k key then some v else get key rest

-- `{**first, **second}` with keys that do not meet.
abbrev pub merge : Payload → Payload → Payload
merge nothing q = q
merge (entry k v p) q = entry k v (merge p q)

-- `value == text`, where the value may be missing or of any kind.
abbrev pub is_text : Option Value → String → Bool
is_text (some (str s)) t = str_eq s t
is_text _ t = false

-- `isinstance(value, str)`
abbrev pub as_text : Option Value → Option String
as_text (some (str s)) = some s
as_text _ = none

-- `value = payload.get(key, 0)` that must be an integer and no Boolean.
abbrev pub as_int : Option Value → Option ℤ
as_int none = some (pos 0)
as_int (some (int n)) = some n
as_int _ = none
