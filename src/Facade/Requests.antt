-- ===== src/Facade/Requests.antt =====
-- The payload schemas of src/bms/app/commands.py and `ActorPayloadSchema` of src/bms/app/auth.py:
-- how the facade reads the payloads that it is given. The schemas say `extra="forbid"`, but for
-- that of the actor.
use bms_gui.Prelude.{
  String, Bool, not, Option, none, some, List, [], ◌∷◌, is_empty, str_eq, if◌then◌else◌,
}
use bms_gui.Fields.{◌&◌}
use bms_gui.Json.{Values, nil, cons, str, arr, Payload, get}
use bms_gui.Result.{Result, ok, err, validation_error, fail_if, ◌>>=◌, ◌>>◌}
use bms_gui.Inventory.Models.{Item}
use bms_gui.Auth.Policy.{ApplicationRole, admin, cashier, accountant}
use bms_gui.Auth.Identity.{roles_unique}
use bms_gui.Facade.Schemas.{
  FacadeEnv, required_text, optional_text, forbid_extra, strict_bool, text_or, required_object,
  bool_or_true,
}

-- `validate_actor_payload`, less the record around the actor.
unfoldable pub validate_actor_payload : Payload → Result String
validate_actor_payload payload = required_text "actor_id" payload

pub record ClosePeriodCommandPayload : Type 0 where
  pub period_id : String
  pub actor_id : String
  pub closed_at : Option String
  pub correlation_id : Option String

unfoldable pub close_period_payload : Payload → Result ClosePeriodCommandPayload
close_period_payload payload = do
  forbid_extra ("period_id" ∷ "actor_id" ∷ "closed_at" ∷ "correlation_id" ∷ []) payload
  period_id ← required_text "period_id" payload
  actor_id ← required_text "actor_id" payload
  closed_at ← optional_text "closed_at" payload
  correlation_id ← optional_text "correlation_id" payload
  ok (record {
    period_id = period_id;
    actor_id = actor_id;
    closed_at = closed_at;
    correlation_id = correlation_id;
  })

-- `ItemSchema` with `to_item`
unfoldable pub item_of : Payload → Result Item
item_of payload = do
  forbid_extra ("item_id" ∷ "sku" ∷ "name" ∷ "active" ∷ "business_unit" ∷ []) payload
  item_id ← required_text "item_id" payload
  sku ← required_text "sku" payload
  name ← required_text "name" payload
  active ← strict_bool "active" payload
  business_unit ← text_or "retail" "business_unit" payload
  ok (record {
    item_id = item_id;
    sku = sku;
    name = name;
    active = active;
    business_unit = business_unit;
  })

pub record RegisterItemPayload : Type 0 where
  pub item : Item
  pub actor_id : String
  pub created_at : String
  pub correlation_id : String

unfoldable pub register_item_payload : Payload → Result RegisterItemPayload
register_item_payload payload = do
  forbid_extra ("item" ∷ "actor_id" ∷ "created_at" ∷ "correlation_id" ∷ []) payload
  fields ← required_object "item" payload
  item ← item_of fields
  actor_id ← required_text "actor_id" payload
  created_at ← required_text "created_at" payload
  correlation_id ← required_text "correlation_id" payload
  ok (record {
    item = item;
    actor_id = actor_id;
    created_at = created_at;
    correlation_id = correlation_id;
  })

-- `ListUserRolesPayloadSchema`
unfoldable pub list_user_roles_payload : Payload → Result String
list_user_roles_payload payload =
    forbid_extra ("actor_id" ∷ []) payload >> required_text "actor_id" payload

pub record UpdateUserRolesPayload : Type 0 where
  pub actor_id : String
  pub target_actor_id : String
  pub roles : List ApplicationRole
  pub active : Bool
  pub updated_at : String
  pub correlation_id : String

-- `ApplicationRole`, by its value.
abbrev pub role_of : String → Option ApplicationRole
role_of name =
    if str_eq name "admin"
    then some admin
    else if str_eq name "cashier"
    then some cashier
    else if str_eq name "accountant"
    then some accountant
    else none

unfoldable pub roles_of : Values → Result (List ApplicationRole)
roles_of nil = ok []
roles_of (cons (str name) values) = elim (role_of name) [
  | none ↦ err (validation_error (name & " is no role"))
  | some role ↦ roles_of values >>= λ roles. ok (role ∷ roles)
]
roles_of (cons _ values) = err (validation_error "a role is not a text")

-- The field with `_roles_must_be_present`.
unfoldable pub required_roles_field : Payload → Result (List ApplicationRole)
required_roles_field payload = elim (get "roles" payload) [
  | some (arr values) ↦ do
    roles ← roles_of values
    fail_if (is_empty roles) (validation_error "at least one role is required")
    fail_if (not (roles_unique roles)) (validation_error "actor roles must be unique")
    ok roles
  | _ ↦ err (validation_error "roles is not a list")
]

module _ (facade : FacadeEnv) where
  unfoldable pub update_user_roles_payload : Payload → Result UpdateUserRolesPayload
  update_user_roles_payload payload = do
    forbid_extra
        ("actor_id" ∷ "target_actor_id" ∷ "roles" ∷ "active" ∷ "updated_at" ∷ "correlation_id" ∷ [])
        payload
    actor_id ← required_text "actor_id" payload
    target_actor_id ← required_text "target_actor_id" payload
    roles ← required_roles_field payload
    active ← bool_or_true facade "active" payload
    updated_at ← required_text "updated_at" payload
    correlation_id ← required_text "correlation_id" payload
    ok (record {
      actor_id = actor_id;
      target_actor_id = target_actor_id;
      roles = roles;
      active = active;
      updated_at = updated_at;
      correlation_id = correlation_id;
    })
