-- ===== src/Facade/Errors.antt =====
-- `ApplicationCommandError` and `map_application_error` of src/bms/app/errors.py: what the facade
-- tells its user of an exception.
use Prim.Native.String.{find, len}
use bms_gui.Prelude.{String, Bool, leb, if◌then◌else◌}
use bms_gui.Result.{
  Error, accounting_error, inventory_error, billing_error, reconciliation_error, event_schema_error,
  value_error, period_close_error, authorization_error, key_error, reporting_error, recovery_error,
  runtime_error, validation_error, backup_error, os_error, tar_error, json_error, core_error,
  zero_division_error, index_error,
}

pub data ApplicationErrorCode : Type 0 where
  validation unauthorized business_rule storage : ApplicationErrorCode
  recovery_required protected_mode unexpected : ApplicationErrorCode

pub record ApplicationCommandError : Type 0 where
  pub code : ApplicationErrorCode
  pub user_message : String
  pub operation : String
  pub cause_type : String

-- What the body of an operation of the facade raises: an error of the services, or one that was
-- answered before.
pub data Exception : Type 0 where
  application_command_error : ApplicationCommandError → Exception
  raised : Error → Exception

-- `part in text`
unfoldable pub has_part : String → String → Bool
has_part part text = leb (find text part) (len text)

-- The answer for an error of the services; the class of `ReconciliationError`, `PeriodCloseError`
-- and of the exceptions of Python is none that is looked for.
unfoldable pub map_service_error : String → Error → ApplicationCommandError
map_service_error operation error =
    let answer : ApplicationErrorCode → String → String → ApplicationCommandError =
      λ code user_message cause_type. record {
        code = code;
        user_message = user_message;
        operation = operation;
        cause_type = cause_type;
      } in
    let surprise : String → ApplicationCommandError =
      answer unexpected "Unexpected application error. Please retry or inspect logs." in
    elim error [
      | accounting_error message ↦ answer business_rule message "AccountingError"
      | inventory_error message ↦ answer business_rule message "InventoryError"
      | billing_error message ↦ answer business_rule message "BillingError"
      | reconciliation_error message ↦ surprise "ReconciliationError"
      | event_schema_error message ↦ answer business_rule message "EventSchemaError"
      | value_error message ↦ surprise "ValueError"
      | period_close_error message ↦ surprise "PeriodCloseError"
      | authorization_error message ↦ answer unauthorized message "AuthorizationError"
      | key_error message ↦ surprise "KeyError"
      | reporting_error message ↦ answer business_rule message "ReportingError"
      | recovery_error message ↦ answer recovery_required message "ApplicationRecoveryError"
      | runtime_error message ↦
          answer (if has_part "protected_mode" message then protected_mode else recovery_required)
            message "ApplicationRuntimeError"
      | validation_error message ↦
          answer validation "Please check the entered fields." "ValidationError"
      | core_error status ↦
          answer storage "Storage is unavailable or failed integrity checks." "BmsCoreError"
      | backup_error message ↦ answer business_rule message "BackupError"
      | os_error message ↦
          answer storage "Storage is unavailable or failed integrity checks." "OSError"
      | tar_error message ↦ surprise "TarError"
      | json_error message ↦ surprise "JSONDecodeError"
      | zero_division_error ↦ surprise "ZeroDivisionError"
      | index_error ↦ surprise "IndexError"
    ]

unfoldable pub map_application_error : String → Exception → ApplicationCommandError
map_application_error operation (application_command_error error) = error
map_application_error operation (raised error) = map_service_error operation error
