-- ===== src/Tests/Setup.antt =====
-- A concrete environment, state and commands for the runs.
use bms_gui.Prelude.{String, is_empty, if◌then◌else◌, true, some, [], ◌∷◌, pos, negsuc}
use bms_gui.Recovery.Startup.{RecoveryEnv}
use bms_gui.Json.{Payload}
use bms_gui.Store.{AppendRecord, World, Env, written}
use bms_gui.Accounting.Models.{PostJournalCommand, debit_line, credit_line}
use bms_gui.Inventory.Models.{Item, StockMovementCommand, stock_in, stock_out}
use bms_gui.Billing.Models.{CreateInvoiceCommand, CreateRefundCommand}

-- Every append succeeds, every file verifies and every payload has the shape of its schema.
abbrev pub env : Env
env = record {
  fate = λ path table r. written;
  verify_status = λ path table. 0;
  model_validate = λ schema payload. some payload;
  utc_now = λ n. "2026-01-15T10:00:00Z";
  uuid4_hex = λ n. "0a";
}

-- A store of empty files.
abbrev pub new_world : World
new_world = record { tables = λ path. []; closed_periods = []; ticks = 0 }

abbrev pub opening_journal : PostJournalCommand
opening_journal = record {
  journal_id = "j1";
  period_id = "FY2026-01";
  timestamp = "2026-01-15T10:00:00Z";
  actor_id = "ann";
  source_module = "accounting";
  source_document_id = "doc1";
  correlation_id = "c1";
  description = "opening";
  lines = debit_line "1000" (pos 500) "INR" "" ∷ credit_line "3000" (pos 500) "INR" "" ∷ [];
}

-- The correction of a transaction.
abbrev pub correction : PostJournalCommand
correction = record opening_journal {
  journal_id = "j2";
  source_module = "recovery";
  source_document_id = "txn_accounting_j1_0a";
}

-- A core that asks for recovery where the log is not empty and then clears it.
abbrev pub core : RecoveryEnv
core = record {
  inspect_startup = λ snapshot log.
      if is_empty log
      then record { status = 0; decision = 0 }
      else record { status = 7; decision = 1 };
  recover_startup = λ snapshot log. (record { status = 0; decision = 0 }, []);
}

abbrev pub tea : Item
tea = record { item_id = "tea"; sku = "T1"; name = "Tea"; active = true; business_unit = "retail" }

abbrev pub delivery : StockMovementCommand
delivery = record {
  movement_id = "m1";
  item_id = "tea";
  movement_type = stock_in;
  quantity_delta = pos 5;
  timestamp = "2026-01-15T10:00:00Z";
  actor_id = "ann";
  reason = "delivery";
  source_module = "inventory";
  source_document_id = "doc2";
  correlation_id = "c2";
  unit_cost_minor = pos 40;
  period_id = "";
}

-- More than was delivered.
abbrev pub large_issue : StockMovementCommand
large_issue = record delivery {
  movement_id = "m2";
  movement_type = stock_out;
  quantity_delta = negsuc 8;
  unit_cost_minor = pos 0;
}

abbrev pub sale : CreateInvoiceCommand
sale = record {
  invoice_id = "i1";
  customer_id = "bob";
  period_id = "FY2026-01";
  timestamp = "2026-01-15T10:00:00Z";
  actor_id = "ann";
  correlation_id = "c3";
  payment_method = "cash";
  currency = "INR";
  lines =
      record { item_id = "tea"; quantity = pos 2; unit_price_minor = pos 99; description = "Tea" }
      ∷ [];
}

abbrev pub return_of_one : CreateRefundCommand
return_of_one = record {
  refund_id = "r1";
  original_invoice_id = "i1";
  period_id = "FY2026-01";
  timestamp = "2026-01-15T10:00:00Z";
  actor_id = "ann";
  correlation_id = "c4";
  currency = "INR";
  reason = "damaged";
  lines =
      record {
        item_id = "tea";
        quantity = pos 1;
        unit_price_minor = pos 99;
        description = "Tea";
        restock = true;
      }
      ∷ [];
}

-- A record of a file.
abbrev pub stored : String → Payload → AppendRecord
stored key payload = record {
  record_id = key;
  record_type = "stored";
  created_at = "2026-01-15T10:00:00Z";
  actor_id = "ann";
  correlation_id = "c1";
  idempotency_key = key;
  payload = payload;
  schema_version = 1;
}

-- What a run of the services computes with.
unfoldable pub runs : Unit {0}
unfolding bms_gui.Accounting.Balances.add_entry bms_gui.Accounting.Balances.add_ledger_line
    bms_gui.Accounting.Balances.add_period_line bms_gui.Accounting.Balances.get_ledger_balances
    bms_gui.Accounting.Balances.get_trial_balance bms_gui.Accounting.Balances.ledger_balance
    bms_gui.Accounting.Balances.ledger_balances_of bms_gui.Accounting.Balances.normal_balance
    bms_gui.Accounting.Balances.trial_balance_of bms_gui.Accounting.Periods.close_open_period
    bms_gui.Accounting.Periods.close_period bms_gui.Accounting.Periods.load_closed_periods
    bms_gui.Accounting.Periods.period_payload bms_gui.Accounting.Periods.start_accounting
    bms_gui.Accounting.Periods.write_period_closed bms_gui.Accounting.Port.is_period_closed
    bms_gui.Accounting.Posting.append_entry bms_gui.Accounting.Posting.append_journal_audit
    bms_gui.Accounting.Posting.append_journal_event bms_gui.Accounting.Posting.append_line
    bms_gui.Accounting.Posting.check_journal bms_gui.Accounting.Posting.entry_payload
    bms_gui.Accounting.Posting.line_payload bms_gui.Accounting.Posting.post_journal
    bms_gui.Accounting.Posting.write_journal bms_gui.Accounting.Validation.add_line
    bms_gui.Accounting.Validation.int_payload bms_gui.Accounting.Validation.reject_duplicate_journal
    bms_gui.Accounting.Validation.validate_line bms_gui.Accounting.Validation.validate_post_command
    bms_gui.Auth.Identity.audit_update bms_gui.Auth.Identity.authorize
    bms_gui.Auth.Identity.ensure_active_admin_remains bms_gui.Auth.Identity.find_session
    bms_gui.Auth.Identity.find_user bms_gui.Auth.Identity.get_session
    bms_gui.Auth.Identity.list_sessions bms_gui.Auth.Identity.plan_update
    bms_gui.Auth.Identity.read_documents bms_gui.Auth.Identity.replace_role_assignment
    bms_gui.Auth.Identity.role_table bms_gui.Auth.Identity.sessions_of
    bms_gui.Auth.Identity.set_active bms_gui.Auth.Identity.update_user_roles
    bms_gui.Auth.Identity.validate_assignment bms_gui.Auth.Identity.validate_assignments
    bms_gui.Auth.Identity.validate_users bms_gui.Auth.Policy.allowed_roles
    bms_gui.Auth.Policy.require bms_gui.Billing.Payloads.required_int
    bms_gui.Billing.Payloads.required_str bms_gui.Billing.Refundable.add_invoiced
    bms_gui.Billing.Refundable.add_requested bms_gui.Billing.Refundable.check_refundable
    bms_gui.Billing.Refundable.line_key_of bms_gui.Billing.Refundable.original_invoice_quantities
    bms_gui.Billing.Refundable.prior_refund_ids
    bms_gui.Billing.Refundable.validate_refund_against_original_invoice
    bms_gui.Dict.Keys.sorted_items bms_gui.Dict.insert bms_gui.Dict.lookup bms_gui.Dict.lookup_or
    bms_gui.Events.event_schemas bms_gui.Exec.for_each bms_gui.Exec.gets bms_gui.Exec.lift
    bms_gui.Exec.modify bms_gui.Exec.pure bms_gui.Exec.raise bms_gui.Exec.raise_if
    bms_gui.Exec.reads bms_gui.Exec.◌>>=◌ bms_gui.Facade.Commands.journal_line_of
    bms_gui.Facade.Commands.movement_type_field
    bms_gui.Facade.Commands.validate_post_journal_command_payload
    bms_gui.Facade.Commands.validate_stock_movement_command_payload bms_gui.Facade.Errors.has_part
    bms_gui.Facade.Errors.map_application_error bms_gui.Facade.Errors.map_service_error
    bms_gui.Facade.Replies.item_output bms_gui.Facade.Requests.item_of
    bms_gui.Facade.Requests.register_item_payload bms_gui.Facade.Requests.validate_actor_payload
    bms_gui.Facade.Schemas.check_ge_zero bms_gui.Facade.Schemas.forbid_extra
    bms_gui.Facade.Schemas.int_or_zero bms_gui.Facade.Schemas.objects_of
    bms_gui.Facade.Schemas.required_int bms_gui.Facade.Schemas.required_lines
    bms_gui.Facade.Schemas.required_object bms_gui.Facade.Schemas.required_text
    bms_gui.Facade.Schemas.strict_bool bms_gui.Facade.Schemas.text_or
    bms_gui.Facade.Schemas.text_or_empty bms_gui.Facade.attempt bms_gui.Facade.authorize_payload
    bms_gui.Facade.on_store bms_gui.Facade.register_item bms_gui.Fields.join bms_gui.Fields.decimal
    bms_gui.Fields.enumerate bms_gui.Fields.int_field bms_gui.Fields.require_fields
    bms_gui.Fields.take_text bms_gui.Inventory.Items.active_of bms_gui.Inventory.Items.add_item
    bms_gui.Inventory.Items.business_unit bms_gui.Inventory.Items.get_item
    bms_gui.Inventory.Items.get_items bms_gui.Inventory.Items.identity_of
    bms_gui.Inventory.Items.item_payload bms_gui.Inventory.Items.items_of
    bms_gui.Inventory.Items.register_item bms_gui.Inventory.Items.reject_duplicate_item
    bms_gui.Inventory.Items.validate_item bms_gui.Inventory.Items.write_item
    bms_gui.Inventory.Movements.commit_movement bms_gui.Inventory.Movements.movement_of
    bms_gui.Inventory.Movements.movement_payload bms_gui.Inventory.Movements.movement_period_id
    bms_gui.Inventory.Movements.movement_unit_cost bms_gui.Inventory.Movements.plan_movement
    bms_gui.Inventory.Movements.reject_duplicate_movement
    bms_gui.Inventory.Movements.validate_command bms_gui.Inventory.Movements.validate_movement_item
    bms_gui.Inventory.Movements.write_movement bms_gui.Inventory.Stock.add_field
    bms_gui.Inventory.Stock.add_period_value bms_gui.Inventory.Stock.add_value
    bms_gui.Inventory.Stock.all_stock_of bms_gui.Inventory.Stock.average_of
    bms_gui.Inventory.Stock.get_all_stock_on_hand
    bms_gui.Inventory.Stock.get_inventory_value_delta_minor
    bms_gui.Inventory.Stock.get_inventory_value_minor bms_gui.Inventory.Stock.get_stock_on_hand
    bms_gui.Inventory.Stock.int_payload bms_gui.Inventory.Stock.period_id_from_timestamp
    bms_gui.Inventory.Stock.period_value_of bms_gui.Inventory.Stock.stock_movement_period_id
    bms_gui.Inventory.Stock.stock_of bms_gui.Inventory.Stock.value_of bms_gui.Prelude.floor_div
    bms_gui.Prelude.insert_by bms_gui.Prelude.sort_by bms_gui.Prelude.sum bms_gui.Prelude.◌*ℤ◌
    bms_gui.Prelude.◌+ℤ◌ bms_gui.Prelude.◌-ℤ◌ bms_gui.Reconciliation.add_amount
    bms_gui.Reconciliation.add_cogs bms_gui.Reconciliation.add_period bms_gui.Reconciliation.balance
    bms_gui.Reconciliation.check bms_gui.Reconciliation.get_reconciliation_report
    bms_gui.Reconciliation.int_payload bms_gui.Reconciliation.invoice_cogs_minor
    bms_gui.Reconciliation.period_payloads bms_gui.Reconciliation.period_total
    bms_gui.Reconciliation.refund_cogs_minor bms_gui.Reconciliation.str_payload
    bms_gui.Reconciliation.sum_field bms_gui.Recovery.Automatic.recover_application_storage
    bms_gui.Recovery.Automatic.recover_store bms_gui.Bootstrap.with_store bms_gui.Bootstrap.on_store
    bms_gui.Runtime.start_store bms_gui.Runtime.start_application
    bms_gui.Recovery.Automatic.recover_by_state bms_gui.Recovery.Automatic.recover_healthy
    bms_gui.Recovery.Automatic.recover_unfinished bms_gui.Recovery.Automatic.unsafe_transactions
    bms_gui.Recovery.Effects.any_with bms_gui.Recovery.Effects.billing_invoice_checks
    bms_gui.Recovery.Effects.billing_refund_checks bms_gui.Recovery.Effects.checks_of
    bms_gui.Recovery.Effects.durable_side_effects bms_gui.Recovery.Effects.record_effects
    bms_gui.Recovery.Pending.committed_ids bms_gui.Recovery.Pending.committed_transaction_ids
    bms_gui.Recovery.Pending.find_pending bms_gui.Recovery.Pending.pending_record
    bms_gui.Recovery.Pending.pending_records bms_gui.Recovery.Pending.pending_transaction
    bms_gui.Recovery.Pending.pending_transactions bms_gui.Recovery.Pending.read_wal_envelopes
    bms_gui.Recovery.Reconcile.authorize_reconciliation bms_gui.Recovery.Reconcile.commit_if
    bms_gui.Recovery.Reconcile.has_reconciliation_record
    bms_gui.Recovery.Reconcile.parse_reconciliation_decision
    bms_gui.Recovery.Reconcile.plan_reconciliation
    bms_gui.Recovery.Reconcile.reconcile_recovery_transaction
    bms_gui.Recovery.Reconcile.reconciliation_payload bms_gui.Recovery.Reconcile.require_arguments
    bms_gui.Recovery.Reconcile.require_pending bms_gui.Recovery.Reconcile.write_reconciliation
    bms_gui.Recovery.Resolve.adjustment_payload bms_gui.Recovery.Resolve.check_adjustment_journal
    bms_gui.Recovery.Resolve.check_reconciliation bms_gui.Recovery.Resolve.check_records
    bms_gui.Recovery.Resolve.find_reconciliation bms_gui.Recovery.Resolve.has_adjustment
    bms_gui.Recovery.Resolve.plan_adjustment
    bms_gui.Recovery.Resolve.resolve_recovery_accounting_adjustment
    bms_gui.Recovery.Resolve.write_adjustment bms_gui.Recovery.Startup.inspect
    bms_gui.Recovery.Startup.inspect_source_files bms_gui.Recovery.Startup.inspect_wal_startup
    bms_gui.Recovery.Startup.recover_wal_startup bms_gui.Recovery.Startup.unclean_health
    bms_gui.Reporting.Documents.add_amounts bms_gui.Reporting.Documents.add_document
    bms_gui.Reporting.Documents.amounts_of bms_gui.Reporting.Documents.get_invoice_report
    bms_gui.Reporting.Documents.get_refund_report bms_gui.Reporting.Documents.invoice_report_of
    bms_gui.Reporting.Documents.invoice_row bms_gui.Reporting.Documents.read_documents
    bms_gui.Reporting.Documents.refund_report_of bms_gui.Reporting.Documents.refund_row
    bms_gui.Reporting.Documents.totals_of bms_gui.Reporting.Ledger.add_profit
    bms_gui.Reporting.Ledger.get_profit_and_loss_report bms_gui.Reporting.Ledger.profit_report_of
    bms_gui.Reporting.Ledger.profit_totals bms_gui.Reporting.Payloads.int_payload
    bms_gui.Reporting.Payloads.str_payload bms_gui.Reporting.Payloads.string_tuple_payload
    bms_gui.Result.check_each bms_gui.Result.collect bms_gui.Result.fold_each
    bms_gui.Store.add_record bms_gui.Store.append_audit_record bms_gui.Store.append_business_event
    bms_gui.Store.append_record bms_gui.Store.append_wal_committed bms_gui.Store.append_wal_pending
    bms_gui.Store.append_wal_record bms_gui.Store.core_append_record bms_gui.Store.has_key
    bms_gui.Store.or_else bms_gui.Store.read_payloads bms_gui.Store.settle bms_gui.Store.utc_now
    bms_gui.Store.uuid4_hex bms_gui.Store.validate_business_event_payload
    bms_gui.UseCases.close_reconciled_period
runs = tt
