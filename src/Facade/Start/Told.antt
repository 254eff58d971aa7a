-- ===== src/Facade/Start/Told.antt =====
-- What the facade tells of a start.
use bms_gui.Prelude.{
  ◌≡◌, refl, ap, ◌∙◌, inl, inr, false, ◌||◌, ◌&&◌, Option, none, some, Bool-cases, nat_eq,
}
use bms_gui.Result.{ok, err}
use bms_gui.Exec.{raise, reads, raise_if, ◌>>=◌}
use bms_gui.Store.{
  FilePath, wal, business_events, journal_entries, journal_lines, periods, items, stock_movements,
  invoices, invoice_lines, refunds, refund_lines, audit_records, reconciliation_records, Env, World,
}
use bms_gui.Recovery.Startup.{
  RecoveryEnv, WalRecoveryResult, StartupState, healthy, recovery_required, protected_mode,
  StartupHealth, is_healthy, unclean_health, damaged_health, inspect,
}
use bms_gui.Backup.Files.{Content, Location}
use bms_gui.Bootstrap.{DataRoot}
use bms_gui.Bootstrap.Initialized.{with_store-run}
use bms_gui.Runtime.{start_store, start_application, unhealthy_error}
use bms_gui.Runtime.Started as Started
use bms_gui.Runtime.Started.{
  IsAnswer, is_clean, is_damaged, is_unclean, inspect-IsAnswer, healthy-start_store,
}
use bms_gui.Facade.Errors.{
  ApplicationErrorCode, ApplicationCommandError, has_part, map_application_error, map_service_error,
}
use bms_gui.Facade.Errors as Errors
use bms_gui.Facade.Start.{StartReply, started, not_started, start_reply, start}

-- The code of the error, if any.
abbrev pub code_of : StartReply → Option ApplicationErrorCode
code_of (started health) = none
code_of (not_started error) = some error.code

-- The code that names a state.
abbrev pub code_for : StartupState → Option ApplicationErrorCode
code_for healthy = none
code_for recovery_required = some Errors.recovery_required
code_for protected_mode = some Errors.protected_mode

abbrev told : StartupHealth → Option ApplicationErrorCode
told health = code_of (start_reply (err (unhealthy_error health)))

damaged-told : (path : FilePath) → told (damaged_health path) ≡ some Errors.protected_mode
unfolding map_application_error map_service_error has_part
damaged-told wal = refl
damaged-told business_events = refl
damaged-told journal_entries = refl
damaged-told journal_lines = refl
damaged-told periods = refl
damaged-told items = refl
damaged-told stock_movements = refl
damaged-told invoices = refl
damaged-told invoice_lines = refl
damaged-told refunds = refl
damaged-told refund_lines = refl
damaged-told audit_records = refl
damaged-told reconciliation_records = refl

unclean-told : (r : WalRecoveryResult) → told (unclean_health r) ≡ code_for (unclean_health r).state
unfolding map_application_error map_service_error has_part unclean_health
unclean-told r = elim (Bool-cases (nat_eq r.status 8 || nat_eq r.decision 3)) [
  | inl locked ↦ rw locked refl
  | inr other ↦
      elim (Bool-cases (nat_eq r.status 7 && (nat_eq r.decision 1 || nat_eq r.decision 2))) [
        | inl unfinished ↦ rw (other, unfinished) refl
        | inr unknown ↦ rw (other, unknown) refl
      ]
]

module _ (env : Env) (core : RecoveryEnv) where
  -- Storage that is not healthy.
  refused-told :
      (w : World) {health : StartupHealth}
      → inspect env core none w ≡ ok health
      → is_healthy health.state ≡ false
      → code_of (start_reply (start_store env core w).0) ≡ told health
  unfolding start_store ◌>>=◌ reads raise_if raise
  refused-told w inspected state = rw (inspected, state) refl

  answer-told :
      (w : World) (health : StartupHealth)
      → inspect env core none w ≡ ok health
      → IsAnswer env core w health
      → code_of (start_reply (start_store env core w).0) ≡ code_for health.state
  answer-told w _ inspected (is_clean status decision verified) =
      ap (λ r. code_of (start_reply r.0)) (healthy-start_store env core w inspected refl)
  answer-told w _ inspected (is_damaged path) = refused-told w inspected refl ∙ damaged-told path
  answer-told w _ inspected (is_unclean r) =
      refused-told w inspected (Started.unclean_health-unhealthy r) ∙ unclean-told r

  -- Where `inspect` finds the health of the storage, `start` of the facade gives no error if it is
  -- healthy, the code RECOVERY_REQUIRED if its recovery is required, and PROTECTED_MODE if it is
  -- in protected mode.
  pub start-code :
      (documents : Content × Content) (root : Location) (d : DataRoot) {health : StartupHealth}
      → inspect env core none d.world ≡ ok health
      → code_of (start env core documents root d).0 ≡ code_for health.state
  unfolding start start_application
  start-code documents root d {health} inspected =
      ap (λ x. code_of (start_reply x.0))
        (with_store-run documents root (start_store env core) d refl)
      ∙ answer-told d.world health inspected (inspect-IsAnswer env core d.world inspected)
