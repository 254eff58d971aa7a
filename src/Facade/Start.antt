-- ===== src/Facade/Start.antt =====
-- `ApplicationCommandFacade.start` of src/bms/app/commands.py.
pub mod Told
use bms_gui.Result.{Result, ok, err}
use bms_gui.Store.{Env}
use bms_gui.Backup.Files.{Content, Location}
use bms_gui.Bootstrap.{DataRoot}
use bms_gui.Recovery.Startup.{RecoveryEnv, StartupHealth}
use bms_gui.Runtime.{start_application}
use bms_gui.Facade.Errors.{ApplicationCommandError, raised, map_application_error}

pub data StartReply : Type 0 where
  started : StartupHealth → StartReply
  not_started : ApplicationCommandError → StartReply

abbrev pub start_reply : Result StartupHealth → StartReply
start_reply (ok health) = started health
start_reply (err error) = not_started (map_application_error "app.start" (raised error))

unfoldable pub start :
    Env → RecoveryEnv → Content × Content → Location → DataRoot → StartReply × DataRoot
start env core documents root d =
    let (result, d') = start_application env core documents root d in (start_reply result, d')
