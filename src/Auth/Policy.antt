-- ===== src/Auth/Policy.antt =====
-- `AuthorizationPolicy` of src/bms/app/auth.py.
use bms_gui.Prelude.{
  String, Bool, true, false, not, ◌&&◌, ◌||◌, List, [], ◌∷◌, is_empty, if◌then◌else◌,
}
use bms_gui.Dict.{Dict, lookup_or}
use bms_gui.Dict.Keys.{string_key}
use bms_gui.Fields.{◌&◌, join}
use bms_gui.Result.{Result, ok, err, authorization_error}

pub data ApplicationRole : Type 0 where
  admin cashier accountant : ApplicationRole

abbrev pub role_eq : ApplicationRole → ApplicationRole → Bool
role_eq admin admin = true
role_eq cashier cashier = true
role_eq accountant accountant = true
role_eq _ _ = false

abbrev pub role_in : ApplicationRole → List ApplicationRole → Bool
role_in role [] = false
role_in role (r ∷ roles) = role_eq r role || role_in role roles

-- `role_set.isdisjoint(allowed_roles)`
abbrev pub is_disjoint : List ApplicationRole → List ApplicationRole → Bool
is_disjoint [] allowed = true
is_disjoint (r ∷ roles) allowed = not (role_in r allowed) && is_disjoint roles allowed

-- `_required_roles`
abbrev pub required_roles : Dict String (List ApplicationRole)
required_roles =
    ("inventory.register_item", admin ∷ [])
    ∷ ("inventory.commit_stock_movement", admin ∷ [])
    ∷ ("accounting.post_journal", accountant ∷ [])
    ∷ ("accounting.close_period", accountant ∷ [])
    ∷ ("billing.create_invoice", cashier ∷ [])
    ∷ ("billing.create_refund", cashier ∷ [])
    ∷ ("backup.create", admin ∷ [])
    ∷ ("backup.restore", admin ∷ [])
    ∷ ("auth.list_user_roles", admin ∷ [])
    ∷ ("auth.update_user_roles", admin ∷ [])
    ∷ ("recovery.reconcile", admin ∷ [])
    ∷ []

abbrev pub role_name : ApplicationRole → String
role_name admin = "admin"
role_name cashier = "cashier"
role_name accountant = "accountant"

-- The names of a set of roles, in alphabetical order.
abbrev pub sorted_names : List ApplicationRole → List String
sorted_names roles =
    let admins = if role_in admin roles then "admin" ∷ [] else [] in
    let accountants = if role_in accountant roles then "accountant" ∷ admins else admins in
    if role_in cashier roles then bms_gui.Prelude.◌++◌ accountants ("cashier" ∷ []) else accountants

-- `self._required_roles.get(operation, frozenset())`
unfoldable pub allowed_roles : String → List ApplicationRole
unfolding lookup_or
allowed_roles operation = lookup_or operation [] required_roles

-- `AuthorizationPolicy.require`
unfoldable pub require : String → List ApplicationRole → Result (Unit {0})
unfolding allowed_roles
require operation roles =
    if role_in admin roles
    then ok tt
    else if not (is_empty (allowed_roles operation)) && is_disjoint roles (allowed_roles operation)
    then err (
        authorization_error (
          operation
          & " requires one of these roles: "
          & join ", " (sorted_names (allowed_roles operation))))
    else ok tt
