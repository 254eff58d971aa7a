-- ===== src/Auth/Identity/Admins/Replaced.antt =====
-- What an update does to the users, the assignments and the requested roles.
use bms_gui.Prelude.{
  String, ◌≡◌, refl, sym, ap, ◌∙◌, ◌⊎◌, inl, inr, Bool, true, false, not, ◌&&◌, ◌||◌, List, [], ◌∷◌,
  ◌++◌, IsIn, is_empty, str_eq, str_in, eq_iff, true-false, Bool-cases, arith, if◌then◌else◌,
}
use bms_gui.Result as R
use bms_gui.Result.{ok, then-ok, check_each}
use bms_gui.Auth.Policy.{ApplicationRole, admin, cashier, accountant, role_eq, role_in}
use bms_gui.Auth.Identity.{
  UserRecord, RoleAssignment, active_ids, active_admins, all_unique, assigned_ids,
  validate_assignment, validate_assignments, set_active, replace_assignments,
  replace_role_assignment, distinct_roles,
}

-- The users are the same, but for the activity of the one actor.
pub data Reactivated (actor_id : String) (active : Bool)
    : List UserRecord → List UserRecord → Type 0 where
  no_user : Reactivated actor_id active [] []
  target :
      (user : UserRecord) {before after : List UserRecord}
      → user.actor_id ≡ actor_id
      → Reactivated actor_id active before after
      → Reactivated actor_id active (user ∷ before) (record user { active = active } ∷ after)
  other :
      (user : UserRecord) {before after : List UserRecord}
      → (user.actor_id ≡ actor_id → ⊥)
      → Reactivated actor_id active before after
      → Reactivated actor_id active (user ∷ before) (user ∷ after)

-- One assignment takes the place of that of its actor, or is the last where there is none.
pub data Reassigned (replacement : RoleAssignment)
    : List RoleAssignment → List RoleAssignment → Type 0 where
  appended : Reassigned replacement [] (replacement ∷ [])
  replaced :
      (a : RoleAssignment) {rest : List RoleAssignment}
      → a.actor_id ≡ replacement.actor_id
      → Reassigned replacement (a ∷ rest) (replacement ∷ rest)
  kept :
      (a : RoleAssignment) {before after : List RoleAssignment}
      → (a.actor_id ≡ replacement.actor_id → ⊥)
      → Reassigned replacement before after
      → Reassigned replacement (a ∷ before) (a ∷ after)

-- An active user is an admin.
pub record HasAdmin (users : List UserRecord) (assignments : List RoleAssignment) : Type 0 where
  pub user : UserRecord
  pub stored : IsIn user users
  pub active : user.active ≡ true
  pub assignment : RoleAssignment
  pub assigned : IsIn assignment assignments
  pub same : user.actor_id ≡ assignment.actor_id
  pub is_admin : role_in admin assignment.roles ≡ true

different : (s t : String) → str_eq s t ≡ false → s ≡ t → ⊥
different s t h e = true-false (sym ((eq_iff s t).1 e) ∙ h)

pub set_active-Reactivated :
    (actor_id : String) (active : Bool) (users : List UserRecord)
    → Reactivated actor_id active users (set_active actor_id active users)
unfolding set_active
set_active-Reactivated actor_id active [] = no_user
set_active-Reactivated actor_id active (user ∷ users) =
    let rest = set_active-Reactivated actor_id active users in
    elim (Bool-cases (str_eq user.actor_id actor_id)) [
      | inl same ↦ rw same (target user ((eq_iff _ _).0 same) rest)
      | inr not_same ↦ rw not_same (other user (different _ _ not_same) rest)
    ]

-- Assignments without the actor stay.
replace_assignments-absent :
    (r : RoleAssignment) (assignments : List RoleAssignment)
    → str_in r.actor_id (assigned_ids assignments) ≡ false
    → replace_assignments assignments r ≡ assignments
unfolding replace_assignments
replace_assignments-absent r [] h = refl
replace_assignments-absent r (a ∷ assignments) h =
    let (here, rest) = neither (str_eq a.actor_id r.actor_id) _ h in
    rw (here, replace_assignments-absent r assignments rest) refl
  where
    neither : (a b : Bool) → (a || b) ≡ false → (a ≡ false) × (b ≡ false)
    neither a b h = ground arith

not_in : (a b : Bool) → (not a && b) ≡ true → (a ≡ false) × (b ≡ true)
not_in a b h = ground arith

replace-Reassigned :
    (r : RoleAssignment) (assignments : List RoleAssignment)
    → all_unique (assigned_ids assignments) ≡ true
    → Reassigned r assignments (
        if str_in r.actor_id (assigned_ids assignments)
        then replace_assignments assignments r
        else replace_assignments assignments r ++ r ∷ [])
unfolding replace_assignments
replace-Reassigned r [] h = appended
replace-Reassigned r (a ∷ assignments) h =
    let (absent, unique) = not_in (str_in a.actor_id (assigned_ids assignments)) _ h in
    elim (Bool-cases (str_eq a.actor_id r.actor_id)) [
      | inl same ↦
          let is_same = (eq_iff a.actor_id r.actor_id).0 same in
          let gone = ap (λ s. str_in s (assigned_ids assignments)) (sym is_same) ∙ absent in
          rw (same, replace_assignments-absent r assignments gone) (replaced a is_same)
      | inr differs ↦ rw differs (
          kept-front a (str_in r.actor_id (assigned_ids assignments)) _ _ (different _ _ differs)
            (replace-Reassigned r assignments unique))
    ]
  where
    kept-front :
        (a : RoleAssignment) {before : List RoleAssignment} (there : Bool)
        (x y : List RoleAssignment)
        → (a.actor_id ≡ r.actor_id → ⊥)
        → Reassigned r before (if there then x else y)
        → Reassigned r (a ∷ before) (if there then a ∷ x else a ∷ y)
    kept-front a true x y ne h = kept a ne h
    kept-front a false x y ne h = kept a ne h

pub replace_role_assignment-Reassigned :
    (r : RoleAssignment) (assignments : List RoleAssignment)
    → all_unique (assigned_ids assignments) ≡ true
    → Reassigned r assignments (replace_role_assignment assignments r)
unfolding replace_role_assignment
replace_role_assignment-Reassigned r assignments unique = replace-Reassigned r assignments unique

pub validate_assignments_unique :
    (assignments : List RoleAssignment)
    → validate_assignments assignments ≡ ok tt
    → all_unique (assigned_ids assignments) ≡ true
unfolding validate_assignments
validate_assignments_unique assignments h =
    let (_, h1) = then-ok (check_each assignments validate_assignment) _ h in
    passed (all_unique (assigned_ids assignments)) _ h1
  where
    passed : (b : Bool) (e : R.Error) → R.fail_if (not b) e ≡ ok tt → b ≡ true
    passed b e h = ground arith

active_ids-stored :
    (id : String) (users : List UserRecord)
    → str_in id (active_ids users) ≡ true
    → (user : UserRecord) × IsIn user users × (user.active ≡ true) × (user.actor_id ≡ id)
active_ids-stored id [] h = cc
active_ids-stored id (user ∷ users) h = elim (one user.active user.actor_id (active_ids users) h) [
  | inl (on, same) ↦ (user, inl refl, on, same)
  | inr later ↦
      let (found, stored, on, same) = active_ids-stored id users later in
      (found, inr stored, on, same)
]
  where
    one :
        (on : Bool) (name : String) (ids : List String)
        → str_in id (if on then name ∷ ids else ids) ≡ true
        → ((on ≡ true) × (name ≡ id)) ⊎ (str_in id ids ≡ true)
    one false name ids h = inr h
    one true name ids h = elim (Bool-cases (str_eq name id)) [
      | inl same ↦ inl (refl, (eq_iff name id).0 same)
      | inr differs ↦ inr (ap (λ b. b || str_in id ids) (sym differs) ∙ h)
    ]

pub active_admins-HasAdmin :
    (users : List UserRecord) (assignments : List RoleAssignment)
    → is_empty (active_admins users assignments) ≡ false
    → HasAdmin users assignments
unfolding active_admins
active_admins-HasAdmin users [] h = cc
active_admins-HasAdmin users (a ∷ assignments) h =
    elim (Bool-cases (str_in a.actor_id (active_ids users) && role_in admin a.roles)) [
      | inl found ↦
          let (on, is_admin) = both (str_in a.actor_id (active_ids users)) _ found in
          let (user, stored, active, same) = active_ids-stored a.actor_id users on in
          record {
            user = user;
            stored = stored;
            active = active;
            assignment = a;
            assigned = inl refl;
            same = same;
            is_admin = is_admin;
          }
      | inr skipped ↦
          let later = active_admins-HasAdmin users assignments (others-left _ _ _ skipped h) in
          record {
            user = later.user;
            stored = later.stored;
            active = later.active;
            assignment = later.assignment;
            assigned = inr later.assigned;
            same = later.same;
            is_admin = later.is_admin;
          }
    ]
  where
    others-left :
        (b : Bool) (x y : List String)
        → b ≡ false
        → is_empty (if b then x else y) ≡ false
        → is_empty y ≡ false
    others-left b x y h k = ap (λ c. is_empty (if c then x else y)) (sym h) ∙ k

    both : (a b : Bool) → (a && b) ≡ true → (a ≡ true) × (b ≡ true)
    both a b h = ground arith

role_eq_same : (x role : ApplicationRole) → role_eq x role ≡ true → x ≡ role
role_eq_same admin admin h = refl
role_eq_same admin cashier h = cc
role_eq_same admin accountant h = cc
role_eq_same cashier admin h = cc
role_eq_same cashier cashier h = refl
role_eq_same cashier accountant h = cc
role_eq_same accountant admin h = cc
role_eq_same accountant cashier h = cc
role_eq_same accountant accountant h = refl

-- With what was seen before, the distinct roles are the same set.
distinct_roles-seen :
    (role : ApplicationRole) (seen roles : List ApplicationRole)
    → (role_in role (distinct_roles seen roles) || role_in role seen)
      ≡ (role_in role roles || role_in role seen)
distinct_roles-seen role seen [] = refl
distinct_roles-seen role seen (x ∷ roles) = elim (Bool-cases (role_in x seen)) [
  | inl old ↦ rw (old) (
      distinct_roles-seen role seen roles
      ∙ absorbed (role_eq x role) (role_in role roles) (role_in role seen)
          (λ same. ap (λ r. role_in r seen) (sym (role_eq_same x role same)) ∙ old))
  | inr new ↦ rw new (
      moved (role_eq x role) (role_in role (distinct_roles (x ∷ seen) roles)) (role_in role roles)
        (role_in role seen) (distinct_roles-seen role (x ∷ seen) roles))
]
  where
    absorbed :
        (e later seen : Bool) → (e ≡ true → seen ≡ true) → (later || seen) ≡ ((e || later) || seen)
    absorbed e later seen h = ground arith

    moved :
        (e a b seen : Bool)
        → (a || (e || seen)) ≡ (b || (e || seen))
        → ((e || a) || seen) ≡ ((e || b) || seen)
    moved e a b seen h = ground arith

pub distinct_roles-role_in :
    (role : ApplicationRole) (roles : List ApplicationRole)
    → role_in role (distinct_roles [] roles) ≡ role_in role roles
distinct_roles-role_in role roles =
    plain (role_in role (distinct_roles [] roles)) (role_in role roles)
      (distinct_roles-seen role [] roles)
  where
    plain : (a b : Bool) → (a || false) ≡ (b || false) → a ≡ b
    plain a b h = ground arith
