-- ===== src/Backup/Created.antt =====
-- What `create_backup` has checked and written when it returns.
use bms_gui.Prelude.{◌≡◌, refl, sym, ap, ◌∙◌, subst, false, Option, none, some, ◌∷◌, String}
use bms_gui.Dict.{lookup}
use bms_gui.Result.{Result, ok, ok-eq}
use bms_gui.Exec.{pure, reads, gets, lift, modify, ◌>>=◌}
use bms_gui.Exec.Outcome.{>>=-eq-ok, raise_if-ok, >>=-run_ok}
use bms_gui.Backup.{
  BackupEnv, BackupResult, members_of, count_files, validate_data_root, manifest_member, time_of,
  directory_of, path_of, manifest_of, create_backup,
}
use bms_gui.Backup.Files.{
  Content, Location, location_key, Disk, is_there, exists_file, make_directory, write_file,
  initialize_data_root,
}
use bms_gui.Backup.Archive.{validate_manifest}

module _ (env : BackupEnv) where
  -- The data root when its files are archived.
  abbrev pub backed_up : Location → Option Location → Disk → Disk
  backed_up root backup_dir d =
      initialize_data_root env.identity_documents root
        (make_directory (directory_of root backup_dir) d)

  pub record IsBackup (root : Location) (backup_dir : Option Location) (d : Disk)
      (result : BackupResult) (d' : Disk) : Type 0 where
    pub counted :
        count_files env root (backed_up root backup_dir d) ≡ ok result.verified_record_counts
    pub unwritten : lookup result.backup_path (backed_up root backup_dir d).files ≡ none
    pub valid :
        validate_manifest (manifest_of result.created_at result.verified_record_counts) ≡ ok tt
    pub written :
        d'
        ≡ write_file result.backup_path
            (env.write_archive (
              manifest_member env (manifest_of result.created_at result.verified_record_counts)
              ∷ members_of root result.backup_path (backed_up root backup_dir d)))
            (backed_up root backup_dir d)

  is_there-none : (o : Option Content) → is_there o ≡ false → o ≡ none
  is_there-none none h = refl
  is_there-none (some text) h = cc

  pub validate_data_root-run :
      (root : Location) (d : Disk)
      → validate_data_root env root d ≡ (
        count_files env root (initialize_data_root env.identity_documents root d),
        initialize_data_root env.identity_documents root d,
      )
  unfolding validate_data_root modify reads ◌>>=◌
  validate_data_root-run root d = refl

  -- The last statement.
  same_run :
      (root : Location) (backup_dir : Option Location) (d : Disk) (r : BackupResult) (now : Disk)
      {result : BackupResult} {d' : Disk}
      → pure r now ≡ (ok result, d')
      → IsBackup root backup_dir d r now
      → IsBackup root backup_dir d result d'
  unfolding pure
  same_run root backup_dir d r now {result} {d'} h k =
      let e : r ≡ result = ok-eq (ap (λ (x : Result BackupResult × Disk). x.0) h) in
      let f : now ≡ d' = ap (λ (x : Result BackupResult × Disk). x.1) h in
      subst (λ v. IsBackup root backup_dir d result v) f
        (subst (λ v. IsBackup root backup_dir d v now) e k)

  pub create_backup-IsBackup :
      (root : Location) (backup_dir : Option Location) (given : Option String) (d : Disk)
      {result : BackupResult} {d' : Disk}
      → create_backup env root backup_dir given d ≡ (ok result, d')
      → IsBackup root backup_dir d result d'
  unfolding create_backup modify gets lift
  create_backup-IsBackup root backup_dir given d h =
      let created_at = time_of env given in
      let path = path_of (directory_of root backup_dir) created_at in
      let now = backed_up root backup_dir d in
      let (_, _, h1) = >>=-eq-ok (modify (make_directory (directory_of root backup_dir))) _ d h in
      let (counts, counted, h2) =
        >>=-run_ok (validate_data_root env root) _ _ (validate_data_root-run root _) h1 in
      let (found, asked, h3) = >>=-eq-ok (gets (exists_file path)) _ now h2 in
      let (fresh, h4) = raise_if-ok found _ _ now h3 in
      let (_, valid, h5) =
        >>=-eq-ok (lift (validate_manifest (manifest_of created_at counts))) _ now h4 in
      let (members, taken, h6) = >>=-eq-ok (gets (members_of root path)) _ now h5 in
      let (_, _, h7) = >>=-eq-ok (modify (write_file path _)) _ now h6 in
      same_run root backup_dir d _ _ h7 (record {
        counted = counted;
        unwritten = is_there-none _ (ok-eq asked ∙ fresh);
        valid = valid;
        written =
            ap
              (λ ms.
                write_file path
                  (env.write_archive (manifest_member env (manifest_of created_at counts) ∷ ms))
                  now)
              (sym (ok-eq taken));
      })
