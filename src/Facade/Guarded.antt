-- ===== src/Facade/Guarded.antt =====
-- The calls of the facade with a payload, and the actors whom they serve.
use bms_gui.Prelude.{String, ◌≡◌, refl, ap, inl, inr, ℤ}
use bms_gui.Dict.{Dict}
use bms_gui.Json.{Value, Payload}
use bms_gui.Result.{Error, Result, ok, err, Result-cases, >>=-eq-ok}
use bms_gui.Exec.{Exec, reads, lift, ◌>>=◌}
use bms_gui.Store.{Env}
use bms_gui.Accounting.Models.{Account}
use bms_gui.Billing.Models.{SalesPostingAccounts}
use bms_gui.UseCases.{InventoryPostingAccounts}
use bms_gui.Auth.Identity.{Directory}
use bms_gui.Auth.Identity.Authorized.{IsAuthorized, authorize-IsAuthorized}
use bms_gui.Facade.{
  Reply, reply, failed, reply_of, attempt, authorize_payload, user_roles, update_user_roles,
  register_item, close_period, post_journal, commit_stock_movement, create_invoice, create_refund,
}
use bms_gui.Facade.Errors.{ApplicationCommandError}
use bms_gui.Facade.Schemas.{FacadeEnv}
use bms_gui.Facade.Requests.{validate_actor_payload}

-- The operations that change the state or need a role.
pub data CommandName : Type 0 where
  list_roles update_roles register move post close sell refund : CommandName

-- The name under which the facade authorizes an operation.
abbrev pub operation_of : CommandName → String
operation_of list_roles = "auth.list_user_roles"
operation_of update_roles = "auth.update_user_roles"
operation_of register = "inventory.register_item"
operation_of move = "inventory.commit_stock_movement"
operation_of post = "accounting.post_journal"
operation_of close = "accounting.close_period"
operation_of sell = "billing.create_invoice"
operation_of refund = "billing.create_refund"

-- An action that raises in a state and leaves it as it is.
pub record Stops {S A : Type 0} (s : S) (m : Exec S A) : Type 0 where
  pub error : Error
  pub raises : m s ≡ (err error, s)

module _ {S A B : Type 0} {s : S} where
  Stops-reads :
      (g : S → Result A) (rest : A → Exec S B) {e : Error}
      → g s ≡ err e
      → Stops s (reads g >>= rest)
  unfolding ◌>>=◌
  Stops-reads g rest {e} h = record { error = e; raises = rw h refl }

  Stops-continue :
      (r : Result A) (rest : A → Exec S B)
      → ((a : A) → Stops s (rest a))
      → Stops s (lift r >>= rest)
  unfolding ◌>>=◌
  Stops-continue (ok a) rest stops = record { error = (stops a).error; raises = (stops a).raises }
  Stops-continue (err e) rest stops = record { error = e; raises = refl }

-- A call that was refused: an error came back and the state is as it was.
pub record IsRefused (d : Directory) (answer : Reply × Directory) : Type 0 where
  pub error : ApplicationCommandError
  pub replied : answer.0 ≡ failed error
  pub unchanged : answer.1 ≡ d

attempt-IsRefused :
    (operation : String) (body : Exec Directory Value) (d : Directory)
    → Stops d body
    → IsRefused d (attempt operation body d)
unfolding attempt
attempt-IsRefused operation body d stops = record {
  error = _;
  replied = ap (λ p. reply_of operation p.0) stops.raises;
  unchanged = ap (λ p. p.1) stops.raises;
}

module _ (env : Env) (facade : FacadeEnv) (accounts : Dict String Account) (tax_rate : ℤ)
    (sales : SalesPostingAccounts) (stock : InventoryPostingAccounts) where
  -- A call of the facade.
  abbrev pub run : CommandName → Payload → Directory → Reply × Directory
  run list_roles payload = user_roles payload
  run update_roles payload = update_user_roles env facade payload
  run register payload = register_item env facade payload
  run move payload = commit_stock_movement env facade accounts stock payload
  run post payload = post_journal env facade accounts payload
  run close payload = close_period env facade payload
  run sell payload = create_invoice env facade accounts tax_rate sales payload
  run refund payload = create_refund env facade accounts tax_rate sales payload

  -- A call of an operation of `CommandName` through the facade whose payload names no actor, or an
  -- actor who is not authorized for the operation, fails with an error and leaves the store, the
  -- users and the roles as they were.
  pub run-unauthorized :
      (name : CommandName) (payload : Payload) (d : Directory) {e : Error}
      → authorize_payload (operation_of name) payload d ≡ err e
      → IsRefused d (run name payload d)
  unfolding user_roles update_user_roles register_item close_period post_journal
      commit_stock_movement create_invoice create_refund
  run-unauthorized list_roles payload d h =
      attempt-IsRefused _ _ d (Stops-continue _ _ λ _. Stops-reads _ _ h)
  run-unauthorized update_roles payload d h =
      attempt-IsRefused _ _ d (Stops-continue _ _ λ _. Stops-reads _ _ h)
  run-unauthorized register payload d h = attempt-IsRefused _ _ d (Stops-reads _ _ h)
  run-unauthorized move payload d h = attempt-IsRefused _ _ d (Stops-reads _ _ h)
  run-unauthorized post payload d h = attempt-IsRefused _ _ d (Stops-reads _ _ h)
  run-unauthorized close payload d h = attempt-IsRefused _ _ d (Stops-reads _ _ h)
  run-unauthorized sell payload d h = attempt-IsRefused _ _ d (Stops-reads _ _ h)
  run-unauthorized refund payload d h = attempt-IsRefused _ _ d (Stops-reads _ _ h)

  -- Where a call of an operation of `CommandName` through the facade replied with a value, its
  -- payload names the actor of a stored user that is active and of a stored assignment whose roles
  -- are those of the session that `get_session` finds, and they have the admin or one of the roles
  -- of the operation, where it names any.
  pub run-IsAuthorized :
      (name : CommandName) (payload : Payload) (d : Directory) {value : Value}
      → (run name payload d).0 ≡ reply value
      → (actor_id : String) × (validate_actor_payload payload ≡ ok actor_id)
        × IsAuthorized (operation_of name) actor_id d
  unfolding authorize_payload
  run-IsAuthorized name payload d h =
      elim (Result-cases (authorize_payload (operation_of name) payload d)) [
        | inl (done, passed) ↦
            let (actor_id, given, authorized) =
              >>=-eq-ok (validate_actor_payload payload) _ passed in
            (actor_id, given, authorize-IsAuthorized (operation_of name) actor_id d authorized)
        | inr (e, stopped) ↦
            let refused = run-unauthorized name payload d stopped in
            let clash = refused.replied in cc
      ]
