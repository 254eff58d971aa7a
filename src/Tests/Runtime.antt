-- ===== src/Tests/Runtime.antt =====
-- Runs of the start of the application.
use bms_gui.Prelude.{◌≡◌, refl, none, some, [], ◌∷◌, if◌then◌else◌}
use bms_gui.Result.{ok}
use bms_gui.Store.{World, Env}
use bms_gui.Accounting.Periods.{close_period}
use bms_gui.Recovery.Startup.{StartupHealth, RecoveryEnv, healthy, damaged_health, inspect}
use bms_gui.Store.{path_eq, periods}
use bms_gui.Runtime.{start_application}
use bms_gui.Runtime.Started.{
  IsStarted, started_root, start_application-IsStarted,
  recover_application_storage-start_application,
}
use bms_gui.Facade.Errors as Errors
use bms_gui.Facade.Start.{start}
use bms_gui.Facade.Start.Told.{code_of, start-code}
use bms_gui.Tests.Setup.{runs, env, core, new_world}
use bms_gui.Backup.Files.{initialize_data_root}
use bms_gui.Bootstrap.{DataRoot}
use bms_gui.Tests.Recovery.{
  documents, root, recovered, recovered_root, unwritten_root, recovered_run,
}

-- A core that finds every log clean.
abbrev clean_core : RecoveryEnv
clean_core = record core { inspect_startup = λ snapshot log. record { status = 0; decision = 0 } }

-- A store with the record of a closed period, which the memory does not hold yet.
abbrev shut_world : World
shut_world = record (close_period env "FY2026-01" "ann" none none new_world).1 {
  closed_periods = [];
}

abbrev clean : StartupHealth
clean = record { state = healthy; wal_status = 0; wal_decision = 0; message = "storage is clean" }

abbrev shut_root : DataRoot
shut_root = record { world = shut_world; disk = record { directories = []; files = [] } }

abbrev opened_root : DataRoot
opened_root = record {
  world = record shut_world { closed_periods = "FY2026-01" ∷ [] };
  disk = initialize_data_root documents root shut_root.disk;
}

started_run : start_application env clean_core documents root shut_root ≡ (ok clean, opened_root)
unfolding runs
started_run = refl

start_application-IsStarted_example :
    IsStarted env clean_core documents root shut_root clean opened_root
start_application-IsStarted_example =
    start_application-IsStarted env clean_core documents root shut_root started_run

recover_application_storage-start_application_example :
    start_application env core documents root recovered_root
    ≡ (ok recovered.after, started_root env core documents root recovered_root)
recover_application_storage-start_application_example =
    recover_application_storage-start_application env core documents root unwritten_root
      recovered_run refl

-- The file of the periods does not verify.
abbrev damaged : Env
damaged = record env { verify_status = λ path table. if path_eq periods path then 3 else 0 }

damaged_run : inspect damaged clean_core none shut_world ≡ ok (damaged_health periods)
unfolding runs
damaged_run = refl

start-code_example :
    code_of (start damaged clean_core documents root shut_root).0 ≡ some Errors.protected_mode
start-code_example = start-code damaged clean_core documents root shut_root damaged_run
