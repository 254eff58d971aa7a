-- ===== src/Recovery/Automatic.antt =====
-- `recover_application_storage` of src/bms/app/recovery.py, and its `inspect_application_recovery`
-- on the store of a data root that is initialized.
pub mod Safe
use bms_gui.Prelude.{String, Bool, true, false, not, Option, List, [], ◌∷◌, is_empty, if◌then◌else◌}
use bms_gui.Fields.{◌&◌, join}
use bms_gui.Result as R
use bms_gui.Result.{Error, Result, ok, recovery_error}
use bms_gui.Exec.{Exec, pure, raise, reads, ◌>>=◌, ◌>>◌, raise_if}
use bms_gui.Store.{Env, World}
use bms_gui.Backup.Files.{Content, Location}
use bms_gui.Bootstrap.{DataRoot, with_store}
use bms_gui.Recovery.Startup.{
  WalRecoveryResult, RecoveryEnv, StartupState, healthy, recovery_required, protected_mode,
  StartupHealth, state_value, is_healthy, inspect, recover_wal_startup,
}
use bms_gui.Recovery.Pending.{PendingRecoveryTransaction, pending_transactions}

pub record ApplicationRecoveryResult : Type 0 where
  pub before : StartupHealth
  pub recovery : WalRecoveryResult
  pub after : StartupHealth

pub record ApplicationRecoveryDiagnostics : Type 0 where
  pub startup_health : StartupHealth
  pub pending_transactions : List PendingRecoveryTransaction

-- The transactions with durable side effects.
unfoldable pub unsafe_transactions :
    List PendingRecoveryTransaction → List PendingRecoveryTransaction
unsafe_transactions [] = []
unsafe_transactions (t ∷ rest) =
    let others = unsafe_transactions rest in if is_empty t.side_effects then others else t ∷ others

-- `automatic_recovery_safe`
unfoldable pub automatic_recovery_safe : ApplicationRecoveryDiagnostics → Bool
automatic_recovery_safe diagnostics =
    is_empty (unsafe_transactions diagnostics.pending_transactions)

abbrev pub described : List PendingRecoveryTransaction → List String
described [] = []
described (t ∷ rest) = (t.transaction_id & " (" & join "; " t.side_effects & ")") ∷ described rest

abbrev pub unsafe_error : List PendingRecoveryTransaction → Error
unsafe_error pending = recovery_error (
    "cannot automatically roll back pending transaction(s) with durable side effects: "
    & join ", " (described (unsafe_transactions pending)))

module _ (env : Env) (core : RecoveryEnv) where
  unfoldable pub inspect_application_recovery :
      Option String → World → Result ApplicationRecoveryDiagnostics
  inspect_application_recovery snapshot w = R.◌>>=◌ (inspect env core snapshot w) λ health.
      R.◌>>=◌
        (elim health.state [
          | protected_mode ↦ ok []
          | healthy ↦ pending_transactions env w
          | recovery_required ↦ pending_transactions env w
        ])
        λ pending. ok (record { startup_health = health; pending_transactions = pending })

  -- Storage that is healthy.
  unfoldable pub recover_healthy :
      Option String → StartupHealth → Exec World ApplicationRecoveryResult
  recover_healthy snapshot before = do
    recovery ← recover_wal_startup env core snapshot
    after ← reads (inspect env core snapshot)
    pure (record { before = before; recovery = recovery; after = after })

  -- Storage with unfinished transactions: only if none of them left a durable record.
  unfoldable pub recover_unfinished :
      Option String → StartupHealth → Exec World ApplicationRecoveryResult
  recover_unfinished snapshot before = do
    pending ← reads (pending_transactions env)
    raise_if (not (is_empty (unsafe_transactions pending))) (unsafe_error pending)
    recovery ← recover_wal_startup env core snapshot
    after ← reads (inspect env core snapshot)
    raise_if (not (is_healthy after.state)) (
        recovery_error
          ("automatic recovery did not produce healthy storage: " & state_value after.state))
    pure (record { before = before; recovery = recovery; after = after })

  -- What is done in each state.
  unfoldable pub recover_by_state :
      Option String → StartupHealth → StartupState → Exec World ApplicationRecoveryResult
  recover_by_state snapshot before protected_mode =
      raise (recovery_error ("cannot recover protected storage automatically: " & before.message))
  recover_by_state snapshot before healthy = recover_healthy snapshot before
  recover_by_state snapshot before recovery_required = recover_unfinished snapshot before

  -- What is done with the store of the root.
  unfoldable pub recover_store : Option String → Exec World ApplicationRecoveryResult
  recover_store snapshot = do
    before ← reads (inspect env core snapshot)
    recover_by_state snapshot before before.state

  unfoldable pub recover_application_storage :
      Content × Content → Location → Option String → Exec DataRoot ApplicationRecoveryResult
  recover_application_storage documents root snapshot =
      with_store documents root (recover_store snapshot)
