-- ===== src/Auth/Identity.antt =====
-- `IdentityService` of src/bms/app/auth.py. The two JSON documents are read and written as the
-- values that they hold.
pub mod Admins
pub mod Authorized
use bms_gui.Prelude.{
  String, Bool, true, false, not, ◌&&◌, ◌||◌, Option, none, some, List, [], ◌∷◌, map, is_empty,
  str_eq, str_in, if◌then◌else◌,
}
use bms_gui.Dict.{Dict, lookup, lookup_or, insert}
use bms_gui.Dict.Keys.{string_key}
use bms_gui.Fields.{◌&◌, truthy}
use bms_gui.Json.{Values, Payload, str, bool, arr, dict, str_list}
use bms_gui.Result as R
use bms_gui.Result.{Result, ok, err, validation_error, authorization_error, fail_if, check_each}
use bms_gui.Exec.{Exec, pure, reads, lift, gets, modify, ◌>>=◌, ◌>>◌}
use bms_gui.Store.{Env, World, uuid4_hex, append_audit_record}
use bms_gui.Auth.Policy.{ApplicationRole, admin, role_eq, role_in, role_name, require}

pub record UserRecord : Type 0 where
  pub actor_id : String
  pub display_name : String
  pub active : Bool

pub record RoleAssignment : Type 0 where
  pub actor_id : String
  pub roles : List ApplicationRole

pub record ActorSession : Type 0 where
  pub actor_id : String
  pub display_name : String
  pub roles : List ApplicationRole

pub record UserRoleProfile : Type 0 where
  pub actor_id : String
  pub display_name : String
  pub active : Bool
  pub roles : List ApplicationRole

-- The state with users.json and roles.json.
pub record Directory : Type 0 where
  pub world : World
  pub users : List UserRecord
  pub assignments : List RoleAssignment

abbrev pub all_unique : List String → Bool
all_unique [] = true
all_unique (s ∷ rest) = not (str_in s rest) && all_unique rest

abbrev pub roles_unique : List ApplicationRole → Bool
roles_unique [] = true
roles_unique (r ∷ roles) = not (role_in r roles) && roles_unique roles

abbrev pub user_ids : List UserRecord → List String
user_ids users = map (λ (u : UserRecord). u.actor_id) users

abbrev pub assigned_ids : List RoleAssignment → List String
assigned_ids assignments = map (λ (a : RoleAssignment). a.actor_id) assignments

-- `UsersFileSchema`: the ids are not empty and are unique.
unfoldable pub validate_users : List UserRecord → Result (Unit {0})
unfolding check_each
validate_users users =
    R.◌>>◌
      (check_each users λ (u : UserRecord).
        fail_if (not (truthy u.actor_id && truthy u.display_name))
          (validation_error "empty user field"))
      (fail_if (not (all_unique (user_ids users)))
        (validation_error "user actor ids must be unique"))

-- `RoleAssignmentSchema`
unfoldable pub validate_assignment : RoleAssignment → Result (Unit {0})
validate_assignment assignment =
    R.◌>>◌ (fail_if (not (truthy assignment.actor_id)) (validation_error "empty actor_id")) (
      R.◌>>◌
        (fail_if (is_empty assignment.roles)
          (validation_error "at least one actor role is required"))
        (fail_if (not (roles_unique assignment.roles))
          (validation_error "actor roles must be unique")))

-- `RolesFileSchema`
unfoldable pub validate_assignments : List RoleAssignment → Result (Unit {0})
unfolding check_each validate_assignment
validate_assignments assignments = R.◌>>◌ (check_each assignments validate_assignment) (
    fail_if (not (all_unique (assigned_ids assignments)))
      (validation_error "role assignment actor ids must be unique"))

-- `{assignment.actor_id: assignment.roles for assignment in ...}`
unfoldable pub role_table :
    Dict String (List ApplicationRole) → List RoleAssignment → Dict String (List ApplicationRole)
unfolding insert
role_table table [] = table
role_table table (a ∷ assignments) = role_table (insert a.actor_id a.roles table) assignments

abbrev pub session_of : UserRecord → List ApplicationRole → ActorSession
session_of user roles = record {
  actor_id = user.actor_id;
  display_name = user.display_name;
  roles = roles;
}

-- The loop of `list_sessions`: active users with roles.
unfoldable pub sessions_of :
    Dict String (List ApplicationRole) → List UserRecord → List ActorSession
unfolding lookup_or
sessions_of table [] = []
sessions_of table (user ∷ users) =
    let others = sessions_of table users in
    let roles = lookup_or user.actor_id [] table in
    if not user.active || is_empty roles then others else session_of user roles ∷ others

-- The last session of an actor, as the dictionary of `get_session` keeps it.
unfoldable pub find_session : String → List ActorSession → Option ActorSession
find_session actor_id [] = none
find_session actor_id (session ∷ sessions) = elim (find_session actor_id sessions) [
  | some later ↦ some later
  | none ↦ if str_eq session.actor_id actor_id then some session else none
]

-- `tuple(dict.fromkeys(roles))`: the first of each, in order.
abbrev pub distinct_roles : List ApplicationRole → List ApplicationRole → List ApplicationRole
distinct_roles seen [] = []
distinct_roles seen (r ∷ roles) =
    let others = distinct_roles (if role_in r seen then seen else r ∷ seen) roles in
    if role_in r seen then others else r ∷ others

-- `user_by_actor_id.get(actor_id)`
unfoldable pub find_user : String → List UserRecord → Option UserRecord
find_user actor_id [] = none
find_user actor_id (user ∷ users) = elim (find_user actor_id users) [
  | some later ↦ some later
  | none ↦ if str_eq user.actor_id actor_id then some user else none
]

-- The users with the activity of one replaced.
unfoldable pub set_active : String → Bool → List UserRecord → List UserRecord
set_active actor_id active users =
    map
      (λ (user : UserRecord). record {
        actor_id = user.actor_id;
        display_name = user.display_name;
        active = if str_eq user.actor_id actor_id then active else user.active;
      })
      users

-- `_replace_role_assignment`, and whether the loop found the actor.
unfoldable pub replace_assignments : List RoleAssignment → RoleAssignment → List RoleAssignment
replace_assignments [] replacement = []
replace_assignments (a ∷ assignments) replacement =
    (if str_eq a.actor_id replacement.actor_id then replacement else a)
    ∷ replace_assignments assignments replacement

unfoldable pub replace_role_assignment : List RoleAssignment → RoleAssignment → List RoleAssignment
unfolding replace_assignments
replace_role_assignment assignments replacement =
    if str_in replacement.actor_id (assigned_ids assignments)
    then replace_assignments assignments replacement
    else bms_gui.Prelude.◌++◌ (replace_assignments assignments replacement) (replacement ∷ [])

-- The ids of the users that are active, and of the active users that have the role of an admin.
abbrev pub active_ids : List UserRecord → List String
active_ids [] = []
active_ids (user ∷ users) =
    let others = active_ids users in if user.active then user.actor_id ∷ others else others

unfoldable pub active_admins : List UserRecord → List RoleAssignment → List String
active_admins users [] = []
active_admins users (a ∷ assignments) =
    let others = active_admins users assignments in
    if str_in a.actor_id (active_ids users) && role_in admin a.roles
    then a.actor_id ∷ others
    else others

-- `_ensure_active_admin_remains`
unfoldable pub ensure_active_admin_remains :
    List UserRecord → List RoleAssignment → Result (Unit {0})
unfolding active_admins
ensure_active_admin_remains users assignments =
    fail_if (is_empty (active_admins users assignments))
      (authorization_error "at least one active admin must remain")

-- The two documents are read and validated.
unfoldable pub read_documents : Directory → Result (Unit {0})
unfolding validate_users validate_assignments
read_documents d = R.◌>>◌ (validate_users d.users) (validate_assignments d.assignments)

unfoldable pub list_sessions : Directory → Result (List ActorSession)
unfolding read_documents sessions_of role_table
list_sessions d = R.◌>>◌ (read_documents d) (ok (sessions_of (role_table [] d.assignments) d.users))

unfoldable pub get_session : String → Directory → Result ActorSession
unfolding list_sessions find_session
get_session actor_id d = R.◌>>=◌ (list_sessions d) λ sessions.
    elim (find_session actor_id sessions) [
      | none ↦ err (authorization_error ("unknown or inactive actor: " & actor_id))
      | some session ↦ ok session
    ]

unfoldable pub list_user_roles : Directory → Result (List UserRoleProfile)
unfolding read_documents role_table lookup_or
list_user_roles d = R.◌>>◌ (read_documents d) (
    ok (
      map
        (λ (user : UserRecord). record {
          actor_id = user.actor_id;
          display_name = user.display_name;
          active = user.active;
          roles = lookup_or user.actor_id [] (role_table [] d.assignments);
        })
        d.users))

-- `_authorize` of src/bms/app/commands.py, for an actor id that was given.
unfoldable pub authorize : String → String → Directory → Result (Unit {0})
unfolding get_session require
authorize operation actor_id d =
    R.◌>>=◌ (get_session actor_id d) λ session. require operation session.roles

-- What `update_user_roles` writes, once its checks have passed.
pub record RoleUpdate : Type 0 where
  pub target : UserRecord
  pub users : List UserRecord
  pub assignments : List RoleAssignment
  pub roles : List ApplicationRole

unfoldable pub plan_update : String → List ApplicationRole → Bool → Directory → Result RoleUpdate
plan_update actor_id roles active d =
    let requested = distinct_roles [] roles in
    let users = set_active actor_id active d.users in
    let assigned : RoleAssignment = record { actor_id = actor_id; roles = requested } in
    let assignments = replace_role_assignment d.assignments assigned in
    R.◌>>◌ (read_documents d) (
      R.◌>>◌ (fail_if (is_empty requested) (authorization_error "at least one role is required"))
        (elim (find_user actor_id d.users) [
          | none ↦ err (authorization_error ("unknown user: " & actor_id))
          | some target ↦ R.◌>>◌ (validate_assignment assigned) (
              R.◌>>◌ (ensure_active_admin_remains users assignments) (
                R.◌>>◌ (validate_users users) (
                  ok (record {
                    target = target;
                    users = users;
                    assignments = assignments;
                    roles = requested;
                  }))))
        ]))

module _ (env : Env) where
  -- The record of the audit, after the documents have been written.
  unfoldable pub audit_update :
      String → RoleUpdate → Bool → String → String → String → Exec Directory (Unit {0})
  audit_update actor_id update active updated_by updated_at correlation_id d =
      let (r, w) =
        (bms_gui.Exec.◌>>=◌ (uuid4_hex env) λ hex.
            append_audit_record env "auth.roles_updated" updated_by "user" actor_id correlation_id
              (some updated_at)
              (dict (
                ("active", bool active)
                ∷ ("roles", arr (str_list (map role_name update.roles)))
                ∷ []))
              (some ("auth_roles_updated_" & actor_id & "_" & hex)))
          d.world in
      let d' : Directory = record d { world = w } in
      elim r [ ok n ↦ (ok tt, d') | err e ↦ (err e, d') ]

  unfoldable pub update_user_roles :
      String
      → List ApplicationRole
      → Bool
      → String
      → String
      → String
      → Exec Directory UserRoleProfile
  update_user_roles actor_id roles active updated_by updated_at correlation_id = do
    update ← reads (plan_update actor_id roles active)
    modify (λ (d : Directory). record d { users = update.users })
    lift (validate_assignments update.assignments)
    modify (λ (d : Directory). record d { assignments = update.assignments })
    audit_update actor_id update active updated_by updated_at correlation_id
    pure (record {
      actor_id = actor_id;
      display_name = update.target.display_name;
      active = active;
      roles = update.roles;
    })
