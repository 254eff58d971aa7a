-- ===== src/Lib.antt =====
-- A model of the business management system of this repository: the services of
-- src/bms/domain, the use cases and the authorization of src/bms/app, and the record store of
-- src/bms/storage that they share, with the theorems that make them correct.
--
-- The program keeps its data in record files that only grow. Every operation checks its command
-- against what the files hold, appends a pending record to the write-ahead log, appends its
-- records, audit records and business events, and appends a committed record. What an operation
-- needs to know, such as the stock of an item or the totals of a period, it adds up from the
-- payloads of the files. Billing calls accounting and inventory through their ports.
--
-- The files and what they model:
--   Prelude, Result, Exec: integers with Python's floor division, errors as values, and methods
--     that read and write the state and may raise; what was written before a raise stays.
--     Exec/Keeps and Exec/Outcome hold the rules for invariants and postconditions.
--   Json, Dict, Fields: JSON payloads, dictionaries, required fields and texts.
--   Events: src/bms/domain/events/schemas.py, the schemas as data.
--   Store: src/bms/storage/file_store/core_store.py and src/bms/core.py. A file is the list of
--     its records. Store/Frame and Store/Append say what appends keep and add.
--   Accounting: src/bms/domain/accounting (post_journal, get_trial_balance,
--     get_ledger_balances, close_period, the chart of accounts).
--   Inventory: src/bms/domain/inventory (register_item, commit_movement, adjust_stock, the
--     readers of stock, value and weighted average).
--   Billing: src/bms/domain/billing (create_invoice, create_refund and their validation).
--   Reconciliation: src/bms/domain/reconciliation, the report of a period.
--   UseCases: src/bms/app/use_cases.py.
--   Auth: src/bms/app/auth.py, and ApplicationCommandFacade._authorize of
--     src/bms/app/commands.py.
--   Facade: ApplicationCommandFacade of src/bms/app/commands.py over the services. Requests and
--     Replies are its schemas, Commands those of the commands in src/bms/domain, Schemas the
--     fields that they share, Errors is src/bms/app/errors.py, Start is its start, and Guarded,
--     Kept and Start/Told its theorems.
--   Runtime: start_application of src/bms/app/runtime.py.
--   Reporting: src/bms/domain/reporting. Documents has the reports on invoices and refunds,
--     Availability what can still be refunded, Revenue, Stock and Ledger the other reports.
--   Recovery: src/bms/app/recovery.py over src/bms/app/startup.py. Startup classifies the storage,
--     Effects and Pending read the log for unfinished transactions, Automatic, Reconcile and
--     Resolve are the three ways to finish them, and Report recommends one.
--   Bootstrap: a data root, that is the store and the other files, and `with_store`, which runs
--     initialize_data_root of src/bms/app/bootstrap.py and then a method of the store.
--   Backup: src/bms/services/backup.py and backup_schemas.py. Files is the disk, with
--     initialize_data_root of src/bms/app/bootstrap.py, and Archive the members, the checks of
--     restore_backup and what extractall writes. Members, Extracted, Created and Restored hold
--     what the archive of a root has and what comes of it; RoundTrip, Inside and Again the
--     theorems.
--   Operations: histories of calls of the services over one store. Calls has the calls, Kept what
--     each of them keeps.
--   Tests: concrete runs.
--
-- A method is split where the source first writes: plan_invoice, plan_movement, check_journal and
-- plan_refund are the checks and reads of create_invoice, commit_movement, post_journal and
-- create_refund, and write_invoice and so on are their writes. Python's integers have no bound,
-- and so have those of the model; no function runs on fuel, since every loop is over a list.
--
-- The record `Env` holds what the program asks of code that is not modelled: how an append of
-- the C core ended (written, refused, or written and reported as failed), whether a file
-- verifies, the validation by pydantic, the clock and the source of identifiers; `RecoveryEnv`
-- holds what the C core answers about the log and does to it, and `FacadeEnv` what pydantic
-- makes of a Boolean field that is not strict. `BackupEnv` holds the verification of a record
-- file, the bytes of tarfile and of a manifest, the clock and the default identity documents; the
-- content of a file is a text, or bytes known by the values they were made of. The theorems hold
-- for all of them, but where they ask that what was written is read again. One process is
-- taken to use the store at a time, and the memory of the service of accounting is one with the
-- state of the store, as the program keeps it.
--
-- start_application and recover_application_storage work on a data root. The other functions of
-- recovery and the operations of the facade are on the store of a root that is initialized, with
-- the two identity documents as the values that they hold.
--
-- Not modelled: the C core (another language), the export of reports by pydantic and the methods
-- of the facade that only pass on reports, backups and restorations, the recovery command line,
-- the smoke run of src/bms/app/bootstrap.py, the demo data and the release check, and the
-- user interface, which has no rules of its own.
pub mod Prelude
pub mod Json
pub mod Dict
pub mod Events
pub mod Result
pub mod Fields
pub mod Exec
pub mod Store
pub mod Accounting
pub mod Inventory
pub mod Billing
pub mod Reconciliation
pub mod Reporting
pub mod Recovery
pub mod UseCases
pub mod Backup
pub mod Bootstrap
pub mod Runtime
pub mod Facade
pub mod Operations
pub mod Tests
pub mod Auth
