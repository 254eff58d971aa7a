-- ===== src/Tests/Access.antt =====
-- Runs of the identity service.
use bms_gui.Prelude.{◌≡◌, refl, true, [], ◌∷◌}
use bms_gui.Result.{ok}
use bms_gui.Auth.Policy.{admin, cashier}
use bms_gui.Auth.Identity.{UserRoleProfile, Directory, authorize, update_user_roles}
use bms_gui.Auth.Identity.Admins.{IsUpdated, update_user_roles-IsUpdated}
use bms_gui.Auth.Identity.Authorized.{IsAuthorized, authorize-IsAuthorized}
use bms_gui.Tests.Setup.{runs, env, new_world}

-- An admin and a cashier.
abbrev directory : Directory
directory = record {
  world = new_world;
  users =
      record { actor_id = "ann"; display_name = "Ann"; active = true }
      ∷ record { actor_id = "bob"; display_name = "Bob"; active = true }
      ∷ [];
  assignments =
      record { actor_id = "ann"; roles = admin ∷ [] }
      ∷ record { actor_id = "bob"; roles = cashier ∷ [] }
      ∷ [];
}

abbrev updated : Directory
updated =
    (update_user_roles env "bob" (admin ∷ cashier ∷ []) true "ann" "2026-01-15T10:00:00Z" "c1"
      directory).1

abbrev profile : UserRoleProfile
profile = record {
  actor_id = "bob";
  display_name = "Bob";
  active = true;
  roles = admin ∷ cashier ∷ [];
}

update_run :
    update_user_roles env "bob"
      (admin ∷ cashier ∷ [])
      true
      "ann"
      "2026-01-15T10:00:00Z"
      "c1"
      directory
    ≡ (ok profile, updated)
unfolding runs
update_run = refl

update_user_roles-IsUpdated_example :
    IsUpdated env "bob" (admin ∷ cashier ∷ []) true directory updated
update_user_roles-IsUpdated_example =
    update_user_roles-IsUpdated env "bob" (admin ∷ cashier ∷ []) true "ann" "2026-01-15T10:00:00Z"
      "c1" directory update_run

authorize_run : authorize "billing.create_invoice" "bob" directory ≡ ok tt
unfolding authorize
authorize_run = refl

authorize-IsAuthorized_example : IsAuthorized "billing.create_invoice" "bob" directory
authorize-IsAuthorized_example =
    authorize-IsAuthorized "billing.create_invoice" "bob" directory authorize_run
