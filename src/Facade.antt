-- ===== src/Facade.antt =====
-- `ApplicationCommandFacade` of src/bms/app/commands.py: the operations with a payload, which the
-- actor of the payload must be allowed to do, over the services and the identities.
pub mod Errors
pub mod Start
pub mod Schemas
pub mod Commands
pub mod Requests
pub mod Replies
pub mod Guarded
pub mod Kept
use bms_gui.Prelude.{String, false, ℤ}
use bms_gui.Dict.{Dict}
use bms_gui.Json.{Value, arr, Payload}
use bms_gui.Result as R
use bms_gui.Result.{Result, ok, err}
use bms_gui.Exec.{Exec, pure, reads, lift, ◌>>=◌, ◌>>◌}
use bms_gui.Store.{Env, World}
use bms_gui.Accounting.Models.{Account}
use bms_gui.Accounting.Port.{accounting_service}
use bms_gui.Inventory.Port.{inventory_service}
use bms_gui.Inventory.Items as Items
use bms_gui.Accounting.Posting as Posting
use bms_gui.Billing.Models.{SalesPostingAccounts}
use bms_gui.Billing.Invoices.Writing as Invoices
use bms_gui.Billing.Refunds.Writing as Refunds
use bms_gui.UseCases as UseCases
use bms_gui.UseCases.{InventoryPostingAccounts}
use bms_gui.Auth.Identity as Identity
use bms_gui.Auth.Identity.{Directory, list_sessions, list_user_roles}
use bms_gui.Facade.Errors.{ApplicationCommandError, raised, map_application_error}
use bms_gui.Facade.Schemas.{FacadeEnv}
use bms_gui.Facade.Commands.{
  validate_post_journal_command_payload, validate_stock_movement_command_payload,
  validate_create_invoice_command_payload, validate_create_refund_command_payload,
}
use bms_gui.Facade.Requests.{
  validate_actor_payload, close_period_payload, register_item_payload, list_user_roles_payload,
  update_user_roles_payload,
}
use bms_gui.Facade.Replies.{
  item_output, stock_movement_output, journal_output, invoice_output, refund_output,
  close_period_output, user_role_output, session_output, list_output,
}

-- What a caller of the facade gets: a value, or the error that was raised.
pub data Reply : Type 0 where
  reply : Value → Reply
  failed : ApplicationCommandError → Reply

-- The reply of a body under `try` with `except Exception as exc`.
abbrev pub reply_of : String → Result Value → Reply
reply_of operation (ok value) = reply value
reply_of operation (err error) = failed (map_application_error operation (raised error))

unfoldable pub attempt : String → Exec Directory Value → Directory → Reply × Directory
attempt operation body d = let (result, d') = body d in (reply_of operation result, d')

-- A service that works on the store of the runtime.
unfoldable pub on_store : {A : Type 0} → Exec World A → Exec Directory A
on_store action d = let (result, w) = action d.world in (result, record d { world = w })

-- `_authorize`
unfoldable pub authorize_payload : String → Payload → Directory → Result (Unit {0})
authorize_payload operation payload d =
    R.◌>>=◌ (validate_actor_payload payload) λ actor_id. Identity.authorize operation actor_id d

unfoldable pub actor_sessions : Directory → Reply × Directory
actor_sessions =
    attempt "auth.actor_sessions"
      (do sessions ← reads list_sessions; pure (arr (list_output session_output sessions)))

unfoldable pub user_roles : Payload → Directory → Reply × Directory
user_roles payload = attempt "auth.list_user_roles" (do
  lift (list_user_roles_payload payload)
  reads (authorize_payload "auth.list_user_roles" payload)
  profiles ← reads list_user_roles
  pure (arr (list_output user_role_output profiles)))

module _ (env : Env) (facade : FacadeEnv) where
  unfoldable pub update_user_roles : Payload → Directory → Reply × Directory
  update_user_roles payload = attempt "auth.update_user_roles" (do
    request ← lift (update_user_roles_payload facade payload)
    reads (authorize_payload "auth.update_user_roles" payload)
    profile ←
        Identity.update_user_roles env request.target_actor_id request.roles request.active
          request.actor_id request.updated_at request.correlation_id
    pure (user_role_output profile))

  unfoldable pub register_item : Payload → Directory → Reply × Directory
  register_item payload = attempt "inventory.register_item" (do
    reads (authorize_payload "inventory.register_item" payload)
    request ← lift (register_item_payload payload)
    item ← on_store (
        Items.register_item env request.item request.actor_id request.created_at
          request.correlation_id)
    pure (item_output item))

  unfoldable pub close_period : Payload → Directory → Reply × Directory
  close_period payload = attempt "accounting.close_period" (do
    reads (authorize_payload "accounting.close_period" payload)
    request ← lift (close_period_payload payload)
    on_store (
        UseCases.close_reconciled_period env request.period_id request.actor_id request.closed_at
          request.correlation_id)
    pure (close_period_output request))

  module _ (accounts : Dict String Account) where
    unfoldable pub post_journal : Payload → Directory → Reply × Directory
    post_journal payload = attempt "accounting.post_journal" (do
      reads (authorize_payload "accounting.post_journal" payload)
      command ← lift (validate_post_journal_command_payload payload)
      result ← on_store (Posting.post_journal env accounts command)
      lift (journal_output result))

    unfoldable pub commit_stock_movement :
        InventoryPostingAccounts → Payload → Directory → Reply × Directory
    commit_stock_movement stock payload = attempt "inventory.commit_stock_movement" (do
      reads (authorize_payload "inventory.commit_stock_movement" payload)
      command ← lift (validate_stock_movement_command_payload payload)
      result ← on_store (
          UseCases.commit_stock_movement (inventory_service env false)
            (accounting_service env accounts) stock command)
      lift (stock_movement_output result))

    module _ (tax_rate : ℤ) (sales : SalesPostingAccounts) where
      unfoldable pub create_invoice : Payload → Directory → Reply × Directory
      create_invoice payload = attempt "billing.create_invoice" (do
        reads (authorize_payload "billing.create_invoice" payload)
        command ← lift (validate_create_invoice_command_payload payload)
        result ← on_store (
            Invoices.create_invoice env (inventory_service env false)
              (accounting_service env accounts) tax_rate sales command)
        lift (invoice_output result))

      unfoldable pub create_refund : Payload → Directory → Reply × Directory
      create_refund payload = attempt "billing.create_refund" (do
        reads (authorize_payload "billing.create_refund" payload)
        command ← lift (validate_create_refund_command_payload facade payload)
        result ← on_store (
            Refunds.create_refund env (inventory_service env false)
              (accounting_service env accounts) tax_rate sales command)
        lift (refund_output result))
