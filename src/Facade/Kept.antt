-- ===== src/Facade/Kept.antt =====
-- The books under the calls of the facade.
use bms_gui.Prelude.{String, Bool, ◌≡◌, refl, false, Option, List, [], ◌∷◌, ℤ}
use bms_gui.Dict.{Dict}
use bms_gui.Json.{Value, Payload}
use bms_gui.Result.{Result, ok, err}
use bms_gui.Exec.{Exec, modify}
use bms_gui.Exec.Keeps.{Keeps, keeps_rules}
use bms_gui.Store.{Env, World, uuid4_hex, append_audit_record}
use bms_gui.Store.Frame.{OnTable, Apart, store_keeps}
use bms_gui.Accounting.Models.{Account, PostJournalCommand}
use bms_gui.Accounting.Port.{accounting_service}
use bms_gui.Accounting.Posting.{post_journal}
use bms_gui.Inventory.Models.{Item, StockMovementCommand}
use bms_gui.Inventory.Items.{register_item}
use bms_gui.Inventory.Port.{inventory_service}
use bms_gui.Billing.Models.{CreateInvoiceCommand, CreateRefundCommand, SalesPostingAccounts}
use bms_gui.Billing.Invoices.Writing.{create_invoice}
use bms_gui.Billing.Refunds.Writing.{create_refund}
use bms_gui.UseCases.{InventoryPostingAccounts, commit_stock_movement, close_reconciled_period}
use bms_gui.Auth.Policy.{ApplicationRole}
use bms_gui.Auth.Identity.{
  Directory, UserRecord, RoleAssignment, RoleUpdate, audit_update, update_user_roles,
}
use bms_gui.Recovery.Startup.{RecoveryEnv}
use bms_gui.Operations.Kept.{after-Books}
use bms_gui.Operations.Calls.{
  Books, Operation, after, post, register, move_and_post, sell, refund, reconcile_and_close,
}
use bms_gui.Facade as Facade
use bms_gui.Facade.{attempt, on_store}
use bms_gui.Facade.Schemas.{FacadeEnv}
use bms_gui.Facade.Guarded as Guarded
use bms_gui.Facade.Guarded.{CommandName, run}

-- The books of the store of the runtime.
pub record InBooks (d : Directory) : Type 0 where
  pub books : Books d.world

attempt-InBooks :
    (operation : String) (body : Exec Directory Value) (d : Directory)
    → Keeps InBooks body
    → InBooks d
    → InBooks (attempt operation body d).1
unfolding attempt
attempt-InBooks operation body d kept b = kept.at d b

on_store-Keeps :
    {A : Type 0} (action : Exec World A) → Keeps Books action → Keeps InBooks (on_store action)
unfolding on_store
on_store-Keeps action kept = record { at = λ d b. record { books = kept.at d.world b.books } }

set_users-Keeps :
    (users : List UserRecord) → Keeps InBooks (modify λ (d : Directory). record d { users = users })
unfolding modify
set_users-Keeps users = record { at = λ d b. record { books = b.books } }

set_assignments-Keeps :
    (assignments : List RoleAssignment)
    → Keeps InBooks (modify λ (d : Directory). record d { assignments = assignments })
unfolding modify
set_assignments-Keeps assignments = record { at = λ d b. record { books = b.books } }

-- The end of `audit_update`.
abbrev answer : {A : Type 0} → Result A → Directory → Result (Unit {0}) × Directory
answer r d = elim r [ ok n ↦ (ok tt, d) | err e ↦ (err e, d) ]

answer-InBooks : {A : Type 0} (r : Result A) (d : Directory) → InBooks d → InBooks (answer r d).1
answer-InBooks (ok a) d b = b
answer-InBooks (err e) d b = b

module _ (env : Env) where
  audit-Keeps :
      (action actor type target correlation : String) (time : Option String) (details : Payload)
      (key : String → Option String)
      → Keeps Books (
          bms_gui.Exec.◌>>=◌ (uuid4_hex env) λ hex.
            append_audit_record env action actor type target correlation time details (key hex))
  audit-Keeps action actor type target correlation time details key = record {
    at = λ w b. record { balanced = (kept tt).at w b.balanced; stocked = (kept tt).at w b.stocked };
  }
    where
      kept :
          {path : bms_gui.Store.FilePath} {T : List Payload → Type 0}
          → Apart bms_gui.Store.audit_records path
          → Keeps (OnTable path T) (
              bms_gui.Exec.◌>>=◌ (uuid4_hex env) λ hex.
                append_audit_record env action actor type target correlation time details (key hex))
      kept a = search (store_keeps, a) depth 12

  audit_update-Keeps :
      (actor_id : String) (update : RoleUpdate) (active : Bool)
      (updated_by updated_at correlation_id : String)
      → Keeps InBooks (audit_update env actor_id update active updated_by updated_at correlation_id)
  unfolding audit_update
  audit_update-Keeps actor_id update active updated_by updated_at correlation_id = record {
    at = λ d b.
        answer-InBooks _ _ (record { books = (audit-Keeps _ _ _ _ _ _ _ _).at d.world b.books });
  }

  update_user_roles-Keeps :
      (actor_id : String) (roles : List ApplicationRole) (active : Bool)
      (updated_by updated_at correlation_id : String)
      → Keeps InBooks
          (update_user_roles env actor_id roles active updated_by updated_at correlation_id)
  unfolding update_user_roles
  update_user_roles-Keeps actor_id roles active updated_by updated_at correlation_id =
      search (keeps_rules, set_users-Keeps, set_assignments-Keeps, audit_update-Keeps) depth 20

-- The services of the facade do not ask the core for recovery.
abbrev no_recovery : RecoveryEnv
no_recovery = record {
  inspect_startup = λ snapshot log. record { status = 8; decision = 3 };
  recover_startup = λ snapshot log. (record { status = 8; decision = 3 }, log);
}

module _ (env : Env) (facade : FacadeEnv) (accounts : Dict String Account) (tax_rate : ℤ)
    (sales : SalesPostingAccounts) (stock : InventoryPostingAccounts) where
  after-Keeps :
      {A : Type 0} (operation : Operation) (action : Exec World A)
      → ((w : World)
          → after env no_recovery accounts tax_rate sales stock operation w ≡ (action w).1)
      → Keeps InBooks (on_store action)
  after-Keeps operation action same = on_store-Keeps action (record {
    at = λ w b.
        bms_gui.Prelude.subst Books (same w)
          (after-Books env no_recovery accounts tax_rate sales stock operation w b);
  })

  register-InBooks :
      (item : Item) (actor_id timestamp correlation_id : String)
      → Keeps InBooks (on_store (register_item env item actor_id timestamp correlation_id))
  register-InBooks item actor_id timestamp correlation_id =
      after-Keeps (register item actor_id timestamp correlation_id) _ λ w. refl

  move-InBooks :
      (command : StockMovementCommand)
      → Keeps InBooks (
          on_store (
            commit_stock_movement
              (inventory_service env false)
              (accounting_service env accounts)
              stock
              command))
  move-InBooks command = after-Keeps (move_and_post command) _ λ w. refl

  post-InBooks :
      (command : PostJournalCommand) → Keeps InBooks (on_store (post_journal env accounts command))
  post-InBooks command = after-Keeps (post command) _ λ w. refl

  close-InBooks :
      (period_id actor_id : String) (closed_at correlation_id : Option String)
      → Keeps InBooks
          (on_store (close_reconciled_period env period_id actor_id closed_at correlation_id))
  close-InBooks period_id actor_id closed_at correlation_id =
      after-Keeps (reconcile_and_close period_id actor_id closed_at correlation_id) _ λ w. refl

  sell-InBooks :
      (command : CreateInvoiceCommand)
      → Keeps InBooks (
          on_store (
            create_invoice env
              (inventory_service env false)
              (accounting_service env accounts)
              tax_rate
              sales
              command))
  sell-InBooks command = after-Keeps (sell command) _ λ w. refl

  refund-InBooks :
      (command : CreateRefundCommand)
      → Keeps InBooks (
          on_store (
            create_refund env
              (inventory_service env false)
              (accounting_service env accounts)
              tax_rate
              sales
              command))
  refund-InBooks command = after-Keeps (refund command) _ λ w. refl

  run-InBooks :
      (name : CommandName) (payload : Payload) (d : Directory)
      → InBooks d
      → InBooks (run env facade accounts tax_rate sales stock name payload d).1
  unfolding Facade.user_roles Facade.update_user_roles Facade.register_item Facade.close_period
      Facade.post_journal Facade.commit_stock_movement Facade.create_invoice Facade.create_refund
  run-InBooks Guarded.list_roles payload d b =
      attempt-InBooks _ _ d (search (keeps_rules) depth 20) b
  run-InBooks Guarded.update_roles payload d b =
      attempt-InBooks _ _ d (search (keeps_rules, update_user_roles-Keeps) depth 20) b
  run-InBooks Guarded.register payload d b =
      attempt-InBooks _ _ d (search (keeps_rules, register-InBooks) depth 20) b
  run-InBooks Guarded.move payload d b =
      attempt-InBooks _ _ d (search (keeps_rules, move-InBooks) depth 20) b
  run-InBooks Guarded.post payload d b =
      attempt-InBooks _ _ d (search (keeps_rules, post-InBooks) depth 20) b
  run-InBooks Guarded.close payload d b =
      attempt-InBooks _ _ d (search (keeps_rules, close-InBooks) depth 20) b
  run-InBooks Guarded.sell payload d b =
      attempt-InBooks _ _ d (search (keeps_rules, sell-InBooks) depth 20) b
  run-InBooks Guarded.refund payload d b =
      attempt-InBooks _ _ d (search (keeps_rules, refund-InBooks) depth 20) b

  -- Calls one after another, whether they reply or fail.
  abbrev pub run_all : List (CommandName × Payload) → Directory → Directory
  run_all [] d = d
  run_all ((name, payload) ∷ calls) d =
      run_all calls (run env facade accounts tax_rate sales stock name payload d).1

  run_all-InBooks :
      (calls : List (CommandName × Payload)) (d : Directory) → InBooks d → InBooks (run_all calls d)
  run_all-InBooks [] d b = b
  run_all-InBooks ((name, payload) ∷ calls) d b =
      run_all-InBooks calls _ (run-InBooks name payload d b)

  -- After any sequence of calls of the operations of `CommandName` through the facade, with any
  -- payloads and by any actors, whether they replied or failed, every entry has one amount for
  -- both totals and the movements add up to a negative stock for no item, where that held before.
  pub run_all-Books :
      (calls : List (CommandName × Payload)) (d : Directory)
      → Books d.world
      → Books (run_all calls d).world
  run_all-Books calls d b = (run_all-InBooks calls d (record { books = b })).books
