-- ===== src/Runtime.antt =====
-- `start_application` of src/bms/app/runtime.py. The services that it wires keep nothing of their
-- own but for the closed periods of accounting.
pub mod Started
use bms_gui.Prelude.{not, none, [], String}
use bms_gui.Fields.{◌&◌}
use bms_gui.Result.{Error, Result, ok, runtime_error}
use bms_gui.Exec.{Exec, pure, reads, raise_if, ◌>>=◌, ◌>>◌}
use bms_gui.Store.{Env, World}
use bms_gui.Accounting.Periods.{start_accounting}
use bms_gui.Backup.Files.{Content, Location}
use bms_gui.Bootstrap.{DataRoot, with_store}
use bms_gui.Recovery.Startup.{RecoveryEnv, StartupHealth, state_value, is_healthy, inspect}

abbrev pub unhealthy_error : StartupHealth → Error
unhealthy_error health = runtime_error (
    "cannot start application while storage is " & state_value health.state & ": " & health.message)

-- What is done with the store of the root.
unfoldable pub start_store : Env → RecoveryEnv → Exec World StartupHealth
start_store env core = do
  health ← reads (inspect env core none)
  raise_if (not (is_healthy health.state)) (unhealthy_error health)
  start_accounting env []
  pure health

unfoldable pub start_application :
    Env → RecoveryEnv → Content × Content → Location → Exec DataRoot StartupHealth
start_application env core documents root = with_store documents root (start_store env core)
