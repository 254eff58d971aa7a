-- ===== src/Fields.antt =====
-- What the services share in checking commands and reading payloads: required fields, integer
-- fields, numbered loops, and texts built by f-strings.
use Prim.Native.String.{◌++◌ as text_append}
use bms_gui.Prelude.{
  ℕ, zero, suc, ◌/◌, ◌%◌, String, Bool, not, none, some, List, [], ◌∷◌, ℤ, pos, negsuc, nat_eq,
  str_eq, eqb_ℤ, floor_div, is_empty, if◌then◌else◌,
}
use bms_gui.Json.{Payload, get, as_int}
use bms_gui.Result.{Error, Result, ok, err, fail_if, zero_division_error}

-- Joins the parts of an f-string.
infixr 66 ◌&◌
abbrev pub ◌&◌ : String → String → String
s & t = text_append s t

-- The truth value of a text.
abbrev pub truthy : String → Bool
truthy s = not (str_eq s "")

-- `separator.join(texts)`
unfoldable pub join : String → List String → String
join separator [] = ""
join separator (s ∷ []) = s
join separator (s ∷ t ∷ rest) = s & separator & join separator (t ∷ rest)

-- `[name for name, value in required.items() if not value]`
abbrev pub missing : List (String × String) → List String
missing [] = []
missing ((name, value) ∷ rest) =
    let others = missing rest in if str_eq value "" then name ∷ others else others

-- Raises if a required field is empty.
unfoldable pub require_fields :
    (String → Error) → String → List (String × String) → Result (Unit {0})
require_fields error message required =
    fail_if (not (is_empty (missing required))) (error (message & join ", " (missing required)))

-- `_int_payload` of the services, which differ in the class that they raise and its message.
unfoldable pub int_field : (String → Error) → String → String → Payload → Result ℤ
int_field error message key payload = elim (as_int (get key payload)) [
  | none ↦ err (error (message & key & " is not an integer"))
  | some n ↦ ok n
]

-- `enumerate(xs, start)`
unfoldable pub enumerate : {A : Type 0} → ℕ → List A → List (ℕ × A)
enumerate start [] = []
enumerate start (x ∷ xs) = (start, x) ∷ enumerate (suc start) xs

-- `a // b` with the exception that Python raises at zero.
unfoldable pub checked_div : ℤ → ℤ → Result ℤ
checked_div a b = if eqb_ℤ b (pos 0) then err zero_division_error else ok (floor_div a b)

digit : ℕ → String
digit n =
    if nat_eq n 0
    then "0"
    else if nat_eq n 1
    then "1"
    else if nat_eq n 2
    then "2"
    else if nat_eq n 3
    then "3"
    else if nat_eq n 4
    then "4"
    else if nat_eq n 5
    then "5"
    else if nat_eq n 6
    then "6"
    else if nat_eq n 7
    then "7"
    else if nat_eq n 8
    then "8"
    else "9"

decimal_from : ℕ → ℕ → String → String
unfolding digit
decimal_from zero n rest = rest
decimal_from (suc fuel) n rest =
    let more = decimal_from fuel (n / 10) (digit (n % 10) & rest) in
    if nat_eq (n / 10) 0 then digit n & rest else more

-- `f"{n}"`; a number has no more digits than its value, plus one.
unfoldable pub decimal : ℕ → String
unfolding decimal_from
decimal n = decimal_from (suc n) n ""

-- `s[:n]`, by characters.
unfoldable pub take_text : ℕ → String → String
take_text zero s = String.[]
take_text (suc n) String.[] = String.[]
take_text (suc n) (String.◌∷◌ c s) = String.◌∷◌ c (take_text n s)

-- `f"{n}"` of an integer.
unfoldable pub int_text : ℤ → String
unfolding decimal
int_text (pos n) = decimal n
int_text (negsuc n) = "-" & decimal (suc n)
