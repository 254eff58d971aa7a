-- ===== src/Backup/RoundTrip.antt =====
-- A backup that was created is restored.
use bms_gui.Prelude.{◌≡◌, sym, ap, ◌∙◌, subst, true, false, Option, none, some, ◌++◌, String}
use bms_gui.Dict.{lookup}
use bms_gui.Result.{ok}
use bms_gui.Backup.{BackupEnv, BackupResult, manifest_of, create_backup, restore_backup}
use bms_gui.Backup.Files.{Location, location_key, Disk, is_occupied}
use bms_gui.Backup.Archive.{manifest_name}
use bms_gui.Backup.Members.{IsTree}
use bms_gui.Backup.Files.Identity.{users_json-there, roles_json-there}
use bms_gui.Backup.Created.{backed_up, IsBackup, create_backup-IsBackup}
use bms_gui.Backup.Restored.{
  RoundTrips, is_kept, restored_name, restored_manifest, restore_backup-run,
}

module _ (env : BackupEnv) where
  -- What a restoration of a backup gives.
  pub record IsRestored (root root' : Location) (d : Disk) (result : BackupResult) (stored : Disk)
      : Type 0 where
    pub returned :
        (restore_backup env result.backup_path root' stored).0
        ≡ ok (record {
          restored_root = root';
          verified_record_counts = result.verified_record_counts;
        })
    pub same :
        (name : Location)
        → is_kept name ≡ true
        → lookup (root' ++ name) (restore_backup env result.backup_path root' stored).1.files
          ≡ lookup (root ++ name) d.files
    pub manifest :
        lookup (root' ++ manifest_name) (restore_backup env result.backup_path root' stored).1.files
        ≡ some (env.dump_manifest (manifest_of result.created_at result.verified_record_counts))

  written-IsRestored :
      (root root' : Location) (backup_dir : Option Location) (d : Disk) (result : BackupResult)
      (stored : Disk)
      → RoundTrips env
      → IsTree (backed_up env root backup_dir d).files
      → lookup (root ++ manifest_name) (backed_up env root backup_dir d).files ≡ none
      → is_occupied root' stored ≡ false
      → IsBackup env root backup_dir d result stored
      → IsRestored root root' (backed_up env root backup_dir d) result stored
  written-IsRestored root root' backup_dir d result stored trips tree no_manifest empty b =
      let now = backed_up env root backup_dir d in
      let m = manifest_of result.created_at result.verified_record_counts in
      let (users, has_users) = users_json-there env.identity_documents root _ in
      let (roles, has_roles) = roles_json-there env.identity_documents root _ in
      let free = subst (λ x. is_occupied root' x ≡ false) b.written empty in
      let run =
        restore_backup-run env trips root result.backup_path root' now m tree b.unwritten
          no_manifest b.valid b.counted env.identity_documents users roles has_users has_roles
          free in
      subst (λ x. IsRestored root root' now result x) (sym b.written)
        (record {
          returned = ap (λ x. x.0) run;
          same = λ name kept.
              ap (λ x. lookup (root' ++ name) x.1.files) run
              ∙ restored_name env trips root result.backup_path root' now m tree b.unwritten
                  no_manifest b.valid b.counted env.identity_documents users roles has_users
                  has_roles free name kept;
          manifest =
              ap (λ x. lookup (root' ++ manifest_name) x.1.files) run
              ∙ restored_manifest env trips root result.backup_path root' now m tree b.unwritten
                  no_manifest b.valid b.counted env.identity_documents users roles has_users
                  has_roles free;
        })

  -- Where `create_backup` returned, `restore_backup` of its archive into an empty root returns
  -- with the same counts; every name outside of backups and temp, but for that of the manifest,
  -- holds below the new root what it held below the old one when the archive was made; and the
  -- manifest is left in the new root. The old root had no file of that name, each path has one
  -- file and is resolved, and archives and manifests are read as they were written.
  pub create_backup-restore_backup :
      (root root' : Location) (backup_dir : Option Location) (given : Option String) (d : Disk)
      {result : BackupResult} {stored : Disk}
      → RoundTrips env
      → IsTree (backed_up env root backup_dir d).files
      → lookup (root ++ manifest_name) (backed_up env root backup_dir d).files ≡ none
      → create_backup env root backup_dir given d ≡ (ok result, stored)
      → is_occupied root' stored ≡ false
      → IsRestored root root' (backed_up env root backup_dir d) result stored
  create_backup-restore_backup root root' backup_dir given d trips tree no_manifest created empty =
      written-IsRestored root root' backup_dir d _ _ trips tree no_manifest empty
        (create_backup-IsBackup env root backup_dir given d created)
