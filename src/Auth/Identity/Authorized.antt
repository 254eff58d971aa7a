-- ===== src/Auth/Identity/Authorized.antt =====
-- Whom `authorize` lets pass.
use bms_gui.Prelude.{
  none-some, String, ◌≡◌, refl, sym, ap, ◌∙◌, subst, ◌⊎◌, inl, inr, Bool, true, false, not, ◌&&◌,
  ◌||◌, Option, none, some, List, [], ◌∷◌, IsIn, is_empty, str_eq, eq_iff, Bool-cases, arith,
  if◌then◌else◌,
}
use bms_gui.Dict.{Dict, lookup_or, insert}
use bms_gui.Dict.Laws.{lookup_or-insert}
use bms_gui.Dict.Keys.{string_key}
use bms_gui.Result as R
use bms_gui.Result.{ok-eq, Error, ok, err, found-ok, then-ok}
use bms_gui.Auth.Policy.{ApplicationRole, admin, role_in, is_disjoint, allowed_roles, require}
use bms_gui.Auth.Identity.{
  UserRecord, RoleAssignment, ActorSession, Directory, read_documents, role_table, session_of,
  sessions_of, find_session, list_sessions, get_session, authorize,
}

-- That an actor passes: the actor of a stored user that is active, with the stored roles of
-- that actor as the session; they have the admin or a role that the operation allows, where it
-- names any.
pub record IsAuthorized (operation actor_id : String) (d : Directory) : Type 0 where
  pub valid : read_documents d ≡ ok tt
  pub user : UserRecord
  pub user_stored : IsIn user d.users
  pub same_user : user.actor_id ≡ actor_id
  pub active : user.active ≡ true
  pub assignment : RoleAssignment
  pub assignment_stored : IsIn assignment d.assignments
  pub same_actor : assignment.actor_id ≡ actor_id
  pub roles_given : is_empty assignment.roles ≡ false
  pub session : get_session actor_id d ≡ ok (session_of user assignment.roles)
  pub allowed :
      (role_in admin assignment.roles ≡ true)
      ⊎ (is_empty (allowed_roles operation) ≡ true)
      ⊎ (is_disjoint assignment.roles (allowed_roles operation) ≡ false)

-- The roles that the table has for an actor are those of an assignment, or were there before.
role_table-stored :
    (id : String) (table : Dict String (List ApplicationRole)) (assignments : List RoleAssignment)
    → (lookup_or id [] (role_table table assignments) ≡ lookup_or id [] table)
      ⊎ ((a : RoleAssignment) × IsIn a assignments
          × (a.actor_id ≡ id)
          × (a.roles ≡ lookup_or id [] (role_table table assignments)))
unfolding role_table
role_table-stored id table [] = inl refl
role_table-stored id table (a ∷ assignments) =
    elim (role_table-stored id (insert a.actor_id a.roles table) assignments) [
      | inr (later, stored, same, roles) ↦ inr (later, inr stored, same, roles)
      | inl first ↦ elim (Bool-cases (str_eq a.actor_id id)) [
        | inl same ↦ inr (
          a,
          inl refl,
          (eq_iff _ _).0 same,
          sym (first ∙ lookup_or-insert a.actor_id id a.roles [] table ∙ rw same refl),
        )
        | inr other ↦ inl (first ∙ lookup_or-insert a.actor_id id a.roles [] table ∙ rw other refl)
      ]
    ]

-- A session that was found is that of a user of the list.
record IsStored (table : Dict String (List ApplicationRole)) (actor_id : String)
    (users : List UserRecord) (session : ActorSession) : Type 0 where
  pub user : UserRecord
  pub stored : IsIn user users
  pub same_user : user.actor_id ≡ actor_id
  pub active : user.active ≡ true
  pub roles_given : is_empty (lookup_or user.actor_id [] table) ≡ false
  pub session_is : session_of user (lookup_or user.actor_id [] table) ≡ session

later-or :
    (found : Option ActorSession) (same : Bool) (front : ActorSession) {session : ActorSession}
    → elim found [ some later ↦ some later | none ↦ if same then some front else none ]
      ≡ some session
    → (found ≡ some session) ⊎ ((same ≡ true) × (front ≡ session))
later-or (some later) same front h = inl h
later-or none true front h = inr (refl, ground arith)
later-or none false front h = absurd (none-some h)

find_session-cons :
    (actor_id : String) (skipped : Bool) (front : ActorSession) (others : List ActorSession)
    {session : ActorSession}
    → find_session actor_id (if skipped then others else front ∷ others) ≡ some session
    → (find_session actor_id others ≡ some session)
      ⊎ ((skipped ≡ false) × (front.actor_id ≡ actor_id) × (front ≡ session))
unfolding find_session
find_session-cons actor_id true front others h = inl h
find_session-cons actor_id false front others h =
    elim (later-or (find_session actor_id others) (str_eq front.actor_id actor_id) front h) [
      | inl later ↦ inl later
      | inr (same, here) ↦ inr (refl, (eq_iff _ _).0 same, here)
    ]

kept : (active empty : Bool) → (not active || empty) ≡ false → (active ≡ true) × (empty ≡ false)
kept active empty h = ground arith

find_session-IsStored :
    (table : Dict String (List ApplicationRole)) (actor_id : String) (users : List UserRecord)
    {session : ActorSession}
    → find_session actor_id (sessions_of table users) ≡ some session
    → IsStored table actor_id users session
unfolding sessions_of find_session
find_session-IsStored table actor_id [] h = absurd (none-some h)
find_session-IsStored table actor_id (user ∷ users) h =
    let roles = lookup_or user.actor_id [] table in
    elim (find_session-cons actor_id (not user.active || is_empty roles) (session_of user roles)
      (sessions_of table users) h) [
        | inl later ↦
            let s = find_session-IsStored table actor_id users later in
            record {
              user = s.user;
              stored = inr s.stored;
              same_user = s.same_user;
              active = s.active;
              roles_given = s.roles_given;
              session_is = s.session_is;
            }
        | inr (taken, same, here) ↦
            let both = kept user.active (is_empty roles) taken in
            record {
              user = user;
              stored = inl refl;
              same_user = same;
              active = both.0;
              roles_given = both.1;
              session_is = here;
            }
      ]

-- The assignment whose roles the session has.
assigned :
    (id : String) (assignments : List RoleAssignment)
    → is_empty (lookup_or id [] (role_table [] assignments)) ≡ false
    → (a : RoleAssignment) × IsIn a assignments
      × (a.actor_id ≡ id)
      × (a.roles ≡ lookup_or id [] (role_table [] assignments))
unfolding lookup_or
assigned id assignments given = elim (role_table-stored id [] assignments) [
  | inr found ↦ found
  | inl empty ↦ let missing : true ≡ false = sym (ap is_empty empty) ∙ given in cc
]

choice :
    (a b c : Bool) (e : Error)
    → (if a then ok tt else if not b && c then err e else ok tt) ≡ ok tt
    → (a ≡ true) ⊎ (b ≡ true) ⊎ (c ≡ false)
choice true b c e h = inl refl
choice false true c e h = inr (inl refl)
choice false false true e h = cc
choice false false false e h = inr (inr refl)

require-ok :
    (operation : String) (roles : List ApplicationRole)
    → require operation roles ≡ ok tt
    → (role_in admin roles ≡ true)
      ⊎ (is_empty (allowed_roles operation) ≡ true)
      ⊎ (is_disjoint roles (allowed_roles operation) ≡ false)
unfolding require
require-ok operation roles h =
    choice (role_in admin roles) (is_empty (allowed_roles operation))
      (is_disjoint roles (allowed_roles operation)) _ h

-- Where `_authorize` lets an actor pass, both documents are valid, a stored user of the actor is
-- active, a stored assignment of the actor has roles, the session that `get_session` finds is that
-- of the user with those roles, and they have the admin or one of the roles of the operation,
-- where it names any.
pub authorize-IsAuthorized :
    (operation actor_id : String) (d : Directory)
    → authorize operation actor_id d ≡ ok tt
    → IsAuthorized operation actor_id d
unfolding authorize get_session list_sessions
authorize-IsAuthorized operation actor_id d h =
    let (session, found, required) = R.>>=-eq-ok (get_session actor_id d) _ h in
    let (sessions, listed, chosen) = R.>>=-eq-ok (list_sessions d) _ found in
    let (read, listed') = then-ok (read_documents d) _ listed in
    let (s, found', same) = found-ok (find_session actor_id sessions) _ (λ s. ok s) chosen in
    let table = role_table [] d.assignments in
    let all : sessions_of table d.users ≡ sessions = ok-eq listed' in
    let s_is : s ≡ session = ok-eq same in
    let stored =
      find_session-IsStored table actor_id d.users {session = session}
        (rw (all, sym s_is) found') in
    let (a, a_stored, a_same, roles) =
      assigned stored.user.actor_id d.assignments stored.roles_given in
    let whole : session_of stored.user a.roles ≡ session =
      ap (session_of stored.user) roles ∙ stored.session_is in
    let session_roles : session.roles ≡ a.roles = ap (λ x. x.roles) (sym whole) in
    record {
      valid = read;
      user = stored.user;
      user_stored = stored.stored;
      same_user = stored.same_user;
      active = stored.active;
      assignment = a;
      assignment_stored = a_stored;
      same_actor = a_same ∙ stored.same_user;
      roles_given = ap is_empty roles ∙ stored.roles_given;
      session = found ∙ ap ok (sym whole);
      allowed =
          require-ok operation a.roles
            (subst (λ r. require operation r ≡ ok tt) session_roles required);
    }
