-- ===== src/Tests/Facade.antt =====
-- Calls of the command facade, and of the register of items.
use bms_gui.Prelude.{◌≡◌, refl, true, false, some, [], ◌∷◌, pos, String, List}
use bms_gui.Facade.Errors.{unexpected, raised, map_application_error, map_service_error, has_part}
use bms_gui.Json.{Payload, str, int, obj, dict}
use bms_gui.Result.{ok, err, authorization_error, value_error}
use bms_gui.Store.{World}
use bms_gui.Accounting.Models.{baseline_chart_of_accounts}
use bms_gui.UseCases.{inventory_posting_accounts}
use bms_gui.Operations.Calls.{Books}
use bms_gui.Inventory.Movements.NonNegative.{no_movements-IsStocked}
use bms_gui.Billing.Models.{sales_posting_accounts}
use bms_gui.Inventory.Items.{as_bool, register_item}
use bms_gui.Inventory.Items.Registered.{IsRegistered, register_item-IsRegistered}
use bms_gui.Auth.Policy.{admin, cashier}
use bms_gui.Auth.Identity.{Directory}
use bms_gui.Auth.Identity.Authorized.{IsAuthorized}
use bms_gui.Facade.{reply, authorize_payload}
use bms_gui.Facade.Schemas.{FacadeEnv}
use bms_gui.Facade.Commands.{validate_stock_movement_command_payload}
use bms_gui.Facade.Requests.{validate_actor_payload}
use bms_gui.Facade.Replies.{item_output}
use bms_gui.Facade.Guarded as Guarded
use bms_gui.Facade.Guarded.{
  operation_of, CommandName, IsRefused, run, run-unauthorized, run-IsAuthorized,
}
use bms_gui.Facade.Kept.{run_all, run_all-Books}
use bms_gui.Tests.Setup.{runs, env, new_world, tea, delivery}

-- An admin and a cashier.
abbrev directory : Directory
directory = record {
  world = new_world;
  users =
      record { actor_id = "ann"; display_name = "Ann"; active = true }
      ∷ record { actor_id = "bob"; display_name = "Bob"; active = true }
      ∷ [];
  assignments =
      record { actor_id = "ann"; roles = admin ∷ [] }
      ∷ record { actor_id = "bob"; roles = cashier ∷ [] }
      ∷ [];
}

-- Boolean fields take Booleans only.
abbrev facade : FacadeEnv
facade = record { lax_bool = λ value. as_bool (some value) }

abbrev registration : String → Payload
registration actor_id = dict (
    ("item", obj (dict (("item_id", str "tea") ∷ ("sku", str "T1") ∷ ("name", str "Tea") ∷ [])))
    ∷ ("actor_id", str actor_id)
    ∷ ("created_at", str "2026-01-15T10:00:00Z")
    ∷ ("correlation_id", str "c1")
    ∷ [])

abbrev movement : Payload
movement = dict (
    ("movement_id", str "m1")
    ∷ ("item_id", str "tea")
    ∷ ("movement_type", str "stock_in")
    ∷ ("quantity_delta", int (pos 5))
    ∷ ("timestamp", str "2026-01-15T10:00:00Z")
    ∷ ("actor_id", str "ann")
    ∷ ("reason", str "delivery")
    ∷ ("source_module", str "inventory")
    ∷ ("source_document_id", str "doc2")
    ∷ ("correlation_id", str "c2")
    ∷ ("unit_cost_minor", int (pos 40))
    ∷ [])

movement_run : validate_stock_movement_command_payload movement ≡ ok delivery
unfolding runs
movement_run = refl

-- The rule of a closed period is reported as an unexpected error.
closed_run :
    (map_application_error "inventory.commit_stock_movement"
      (raised (value_error "period FY2026-01 is closed"))).code
    ≡ unexpected
unfolding map_application_error map_service_error
closed_run = refl

protected_run : has_part "protected_mode" "storage is protected_mode: x" ≡ true
unfolding has_part
protected_run = refl

absent_run : has_part "protected_mode" "storage is recovery_required" ≡ false
unfolding has_part
absent_run = refl

abbrev registered : World
registered = (register_item env tea "ann" "2026-01-15T10:00:00Z" "c1" new_world).1

register_run :
    register_item env tea "ann" "2026-01-15T10:00:00Z" "c1" new_world ≡ (ok tea, registered)
unfolding runs
register_run = refl

register_item-IsRegistered_example : IsRegistered env tea new_world registered
register_item-IsRegistered_example =
    register_item-IsRegistered env tea "ann" "2026-01-15T10:00:00Z" "c1" new_world refl register_run

-- A cashier may not register an item.
refused_run :
    authorize_payload (operation_of Guarded.register) (registration "bob") directory
    ≡ err (authorization_error "inventory.register_item requires one of these roles: admin")
unfolding runs
refused_run = refl

run-unauthorized_example : IsRefused directory (
    run env facade baseline_chart_of_accounts
      (pos 1800)
      sales_posting_accounts
      inventory_posting_accounts
      Guarded.register
      (registration "bob")
      directory)
run-unauthorized_example =
    run-unauthorized env facade baseline_chart_of_accounts (pos 1800) sales_posting_accounts
      inventory_posting_accounts Guarded.register (registration "bob") directory refused_run

-- An admin may.
served_run :
    (run env facade baseline_chart_of_accounts
      (pos 1800)
      sales_posting_accounts
      inventory_posting_accounts
      Guarded.register
      (registration "ann")
      directory).0
    ≡ reply (item_output tea)
unfolding runs
served_run = refl

run-IsAuthorized_example :
    (actor_id : String) × (validate_actor_payload (registration "ann") ≡ ok actor_id)
    × IsAuthorized (operation_of Guarded.register) actor_id directory
run-IsAuthorized_example =
    run-IsAuthorized env facade baseline_chart_of_accounts (pos 1800) sales_posting_accounts
      inventory_posting_accounts Guarded.register (registration "ann") directory served_run

abbrev calls : List (CommandName × Payload)
calls =
    (Guarded.register, registration "bob")
    ∷ (Guarded.register, registration "ann")
    ∷ (Guarded.move, movement)
    ∷ (Guarded.sell, movement)
    ∷ []

new_world-Books : Books new_world
new_world-Books = record {
  balanced = record { holds = tt };
  stocked = record { holds = no_movements-IsStocked };
}

run_all-Books_example :
    Books
      (run_all env facade baseline_chart_of_accounts
        (pos 1800)
        sales_posting_accounts
        inventory_posting_accounts
        calls
        directory).world
run_all-Books_example =
    run_all-Books env facade baseline_chart_of_accounts (pos 1800) sales_posting_accounts
      inventory_posting_accounts calls directory new_world-Books
