-- ===== src/Auth/Identity/Admins.antt =====
-- What `update_user_roles` leaves in the two documents.
pub mod Replaced
use bms_gui.Prelude.{
  ℕ, String, ◌≡◌, refl, sym, ap, ◌∙◌, subst, Bool, true, false, not, List, [], is_empty, arith,
}
use bms_gui.Fields.{truthy}
use bms_gui.Result as R
use bms_gui.Result.{ok-eq, Error, Result, ok, err, found-ok, then-ok, guard-ok}
use bms_gui.Exec.{pure, reads, lift, modify}
use bms_gui.Exec.Keeps.{Keeps}
use bms_gui.Exec.Outcome as Outcome
use bms_gui.Store.{Env, World}
use bms_gui.Auth.Policy.{ApplicationRole, role_in}
use bms_gui.Auth.Identity.{
  UserRecord, RoleAssignment, UserRoleProfile, Directory, RoleUpdate, active_admins, roles_unique,
  ensure_active_admin_remains, find_user, validate_users, validate_assignments, validate_assignment,
  read_documents, set_active, replace_role_assignment, distinct_roles, plan_update, audit_update,
  update_user_roles,
}
use bms_gui.Auth.Identity.Admins.Replaced.{
  Reactivated, Reassigned, HasAdmin, set_active-Reactivated, replace_role_assignment-Reassigned,
  active_admins-HasAdmin, distinct_roles-role_in, validate_assignments_unique,
}

-- What the plan of an update has checked.
pub record IsPlannedUpdate (actor_id : String) (roles : List ApplicationRole) (active : Bool)
    (d : Directory) (update : RoleUpdate) : Type 0 where
  pub read : read_documents d ≡ ok tt
  pub users : update.users ≡ set_active actor_id active d.users
  pub assignments :
      update.assignments
      ≡ replace_role_assignment d.assignments
          (record { actor_id = actor_id; roles = distinct_roles [] roles })
  pub roles_given : is_empty (distinct_roles [] roles) ≡ false
  pub admin_remains : is_empty (active_admins update.users update.assignments) ≡ false
  pub valid_users : validate_users update.users ≡ ok tt
  pub valid_roles : roles_unique (distinct_roles [] roles) ≡ true

fail_if-ok : (b : Bool) (e : Error) → R.fail_if b e ≡ ok tt → b ≡ false
fail_if-ok b e h = ground arith

not-true : (b : Bool) → not b ≡ false → b ≡ true
not-true b h = ground arith

plan_update-ok :
    (actor_id : String) (roles : List ApplicationRole) (active : Bool) (d : Directory)
    {update : RoleUpdate}
    → plan_update actor_id roles active d ≡ ok update
    → IsPlannedUpdate actor_id roles active d update
unfolding plan_update ensure_active_admin_remains validate_assignment
plan_update-ok actor_id roles active d {update} h =
    let requested = distinct_roles [] roles in
    let assigned : RoleAssignment = record { actor_id = actor_id; roles = requested } in
    let users = set_active actor_id active d.users in
    let (read, h1) = then-ok (read_documents d) _ h in
    let (given, h2) = guard-ok (is_empty requested) _ _ h1 in
    let (target, found, h3) = found-ok (find_user actor_id d.users) _ _ h2 in
    let (valid_assignment, h4) = then-ok (validate_assignment assigned) _ h3 in
    let (_, h7) = then-ok (R.fail_if (not (truthy actor_id)) _) _ valid_assignment in
    let (_, h8) = then-ok (R.fail_if (is_empty requested) _) _ h7 in
    let (admins, h5) = guard-ok _ _ _ h4 in
    let (valid, h6) = then-ok (validate_users users) _ h5 in
    let planned : RoleUpdate = record {
      target = target;
      users = users;
      assignments = replace_role_assignment d.assignments assigned;
      roles = requested;
    } in
    let same : planned ≡ update = ok-eq h6 in
    record {
      read = read;
      users = rw (sym same);
      assignments = rw (sym same);
      roles_given = given;
      admin_remains = rw (sym same) admins;
      valid_users = rw (sym same) valid;
      valid_roles = not-true _ (fail_if-ok _ _ h8);
    }

module _ (env : Env) where
  -- The audit of an update does not touch the documents.
  Documents : List UserRecord → List RoleAssignment → Directory → Type 0
  Documents users assignments d = (d.users ≡ users) × (d.assignments ≡ assignments)

  after-Documents :
      (users : List UserRecord) (assignments : List RoleAssignment) (r : Result ℕ) (w : World)
      (d : Directory)
      → Documents users assignments d
      → let d' : Directory = record d { world = w } in
        Documents users assignments
          (elim r as (λ _. Result (Unit {0}) × Directory) [
            | ok n ↦ (ok tt, d')
            | err e ↦ (err e, d')
          ]).1
  unfolding Documents
  after-Documents users assignments (ok n) w d h = h
  after-Documents users assignments (err e) w d h = h

  audit_update-Keeps :
      (actor_id : String) (update : RoleUpdate) (active : Bool)
      (updated_by updated_at correlation_id : String) (users : List UserRecord)
      (assignments : List RoleAssignment)
      → Keeps
          (Documents users assignments)
          (audit_update env actor_id update active updated_by updated_at correlation_id)
  unfolding audit_update Documents
  audit_update-Keeps actor_id update active updated_by updated_at correlation_id users assignments =
      record { at = λ d h. after-Documents users assignments _ _ d h }

  -- What the documents are after an update that returned.
  pub record IsUpdated (actor_id : String) (roles : List ApplicationRole) (active : Bool)
      (d d' : Directory) : Type 0 where
    pub users : Reactivated actor_id active d.users d'.users
    pub requested : List ApplicationRole
    pub same_roles : (role : ApplicationRole) → role_in role requested ≡ role_in role roles
    pub unique_roles : roles_unique requested ≡ true
    pub assignments :
        Reassigned (record { actor_id = actor_id; roles = requested }) d.assignments d'.assignments
    pub admin_remains : HasAdmin d'.users d'.assignments
    pub valid : read_documents d' ≡ ok tt

  -- Where `update_user_roles` returned: the users are the old ones, but that the one actor has the
  -- given activity; one assignment, of the requested roles without repetition, takes the place of
  -- that of the actor or is the last where there was none, and the others are as they were; both
  -- documents are valid; and a stored user that is active has a stored assignment with the admin.
  pub update_user_roles-IsUpdated :
      (actor_id : String) (roles : List ApplicationRole) (active : Bool)
      (updated_by updated_at correlation_id : String) (d : Directory) {profile : UserRoleProfile}
      {d' : Directory}
      → update_user_roles env actor_id roles active updated_by updated_at correlation_id d
        ≡ (ok profile, d')
      → IsUpdated actor_id roles active d d'
  unfolding update_user_roles reads lift modify pure read_documents Documents
  update_user_roles-IsUpdated actor_id roles active updated_by updated_at correlation_id d {d'} h =
      let (update, planned, h1) =
        Outcome.>>=-eq-ok (reads (plan_update actor_id roles active)) _ d h in
      let d1 : Directory = record d { users = update.users } in
      let (_, _, h2) =
        Outcome.>>=-eq-ok (modify (λ (d : Directory). record d { users = update.users })) _ d h1 in
      let (_, valid, h3) =
        Outcome.>>=-eq-ok (lift (validate_assignments update.assignments)) _ d1 h2 in
      let d2 : Directory = record d1 { assignments = update.assignments } in
      let (_, _, h4) =
        Outcome.>>=-eq-ok
          (modify (λ (d : Directory). record d { assignments = update.assignments })) _ d1 h3 in
      let (_, _, h5) =
        Outcome.>>=-eq-ok
          (audit_update env actor_id update active updated_by updated_at correlation_id) _ d2 h4 in
      let (same_users, same_assignments) =
        (audit_update-Keeps actor_id update active updated_by updated_at correlation_id update.users
            update.assignments).at
          d2 (refl, refl) in
      let last = ap (λ (r : Result UserRoleProfile × Directory). r.1) h5 in
      let assigned : RoleAssignment = record {
        actor_id = actor_id;
        roles = distinct_roles [] roles;
      } in
      let p = plan_update-ok actor_id roles active d planned in
      let users : d'.users ≡ update.users =
        ap (λ (x : Directory). x.users) (sym last) ∙ same_users in
      let assignments : d'.assignments ≡ update.assignments =
        ap (λ (x : Directory). x.assignments) (sym last) ∙ same_assignments in
      record {
        users =
            subst (Reactivated actor_id active d.users) (sym (users ∙ p.users))
              (set_active-Reactivated actor_id active d.users);
        requested = distinct_roles [] roles;
        same_roles = λ role. distinct_roles-role_in role roles;
        unique_roles = p.valid_roles;
        assignments =
            subst (Reassigned assigned d.assignments) (sym (assignments ∙ p.assignments)) (
              replace_role_assignment-Reassigned assigned d.assignments (
                validate_assignments_unique d.assignments
                  (then-ok (validate_users d.users) _ p.read).1));
        admin_remains =
            active_admins-HasAdmin d'.users d'.assignments
              (rw (users, assignments) p.admin_remains);
        valid = rw (users, assignments, p.valid_users) valid;
      }
