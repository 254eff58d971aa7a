-- ===== src/Tests/Backup.antt =====
-- A backup, its restoration, and a backup of what was restored.
mod Disks
use bms_gui.Prelude.{◌≡◌, refl, false, none, some, [], ◌∷◌, ◌++◌}
use bms_gui.Dict.{lookup}
use bms_gui.Result.{ok, err, backup_error}
use bms_gui.Backup.{create_backup, restore_backup}
use bms_gui.Backup.Files.{location_key, is_occupied, relative_to}
use bms_gui.Backup.Archive.{manifest_name}
use bms_gui.Backup.Members.{IsTree}
use bms_gui.Backup.Created.{backed_up}
use bms_gui.Backup.RoundTrip.{IsRestored, create_backup-restore_backup}
use bms_gui.Backup.Again.{create_backup-ambiguous}
use bms_gui.Backup.Inside.{restore_backup-outside}
use bms_gui.Tests.Backup.Disks.{
  backup_env, backup_env-RoundTrips, backups, counts, live, manifest, backup_in, stored, restored,
  stored_again,
}

created_run :
    create_backup backup_env ("data" ∷ []) none none live ≡ (ok (backup_in "data"), stored)
unfolding backups
created_run = refl

live-IsTree : IsTree (backed_up backup_env ("data" ∷ []) none live).files
unfolding backups
live-IsTree = record {
  entries = (refl, (refl, (refl, tt)));
  plain =
      ((refl, (refl, (refl, tt))), ((refl, (refl, (refl, tt))), ((refl, (refl, (refl, tt))), tt)));
}

no_manifest_run :
    lookup (("data" ∷ []) ++ manifest_name) (backed_up backup_env ("data" ∷ []) none live).files
    ≡ none
unfolding backups
no_manifest_run = refl

empty_run : is_occupied ("restored" ∷ []) stored ≡ false
unfolding backups
empty_run = refl

create_backup-restore_backup_example :
    IsRestored backup_env
      ("data" ∷ [])
      ("restored" ∷ [])
      (backed_up backup_env ("data" ∷ []) none live)
      (backup_in "data")
      stored
create_backup-restore_backup_example =
    create_backup-restore_backup backup_env ("data" ∷ []) ("restored" ∷ []) none none live
      backup_env-RoundTrips live-IsTree no_manifest_run created_run empty_run

outside_run : relative_to ("restored" ∷ []) ("data" ∷ "accounting" ∷ []) ≡ none
unfolding relative_to
outside_run = refl

restore_backup-outside_example :
    lookup
      ("data" ∷ "accounting" ∷ [])
      (restore_backup backup_env (backup_in "data").backup_path ("restored" ∷ []) stored).1.files
    ≡ lookup ("data" ∷ "accounting" ∷ []) stored.files
restore_backup-outside_example =
    restore_backup-outside backup_env (backup_in "data").backup_path ("restored" ∷ [])
      ("data" ∷ "accounting" ∷ []) stored outside_run

restored_run :
    restore_backup backup_env (backup_in "data").backup_path ("restored" ∷ []) stored
    ≡ (ok (record { restored_root = "restored" ∷ []; verified_record_counts = counts }), restored)
unfolding backups
restored_run = refl

created_again_run :
    create_backup backup_env ("restored" ∷ []) none none restored
    ≡ (ok (backup_in "restored"), stored_again)
unfolding backups
created_again_run = refl

restored-IsTree : IsTree (backed_up backup_env ("restored" ∷ []) none restored).files
unfolding backups
restored-IsTree = record {
  entries = (refl, (refl, (refl, (refl, (refl, (refl, (refl, (refl, tt))))))));
  plain = (
    (refl, (refl, (refl, tt))),
    (
      (refl, (refl, (refl, tt))),
      (
        (refl, (refl, (refl, tt))),
        (
          (refl, (refl, (refl, tt))),
          (
            (refl, (refl, tt)),
            (
              (refl, (refl, (refl, tt))),
              ((refl, (refl, (refl, tt))), ((refl, (refl, (refl, tt))), tt)),
            ),
          ),
        ),
      ),
    ),
  );
}

manifest_run :
    lookup
      (("restored" ∷ []) ++ manifest_name)
      (backed_up backup_env ("restored" ∷ []) none restored).files
    ≡ some manifest
unfolding backups
manifest_run = refl

second_run : is_occupied ("second" ∷ []) stored_again ≡ false
unfolding backups
second_run = refl

create_backup-ambiguous_example :
    (restore_backup backup_env (backup_in "restored").backup_path ("second" ∷ []) stored_again).0
    ≡ err (backup_error "backup manifest is missing or ambiguous")
create_backup-ambiguous_example =
    create_backup-ambiguous backup_env ("restored" ∷ []) ("second" ∷ []) none none restored
      backup_env-RoundTrips restored-IsTree manifest_run created_again_run second_run
