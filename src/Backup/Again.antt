-- ===== src/Backup/Again.antt =====
-- A backup of a root that holds a manifest, as every restored root does, is never restored.
use bms_gui.Prelude.{
  ◌≡◌, refl, sym, ap, ◌∙◌, subst, Bool, true, false, ◌||◌, Bool-cases, inl, inr, Option, none, some,
  none-some, List, [], ◌∷◌, ◌++◌, All, String, select, if◌then◌else◌,
}
use bms_gui.Dict.{lookup}
use bms_gui.Result.{Result, Error, ok, err, backup_error}
use bms_gui.Exec.{Exec, reads, gets, lift, raise_if, modify, ◌>>=◌}
use bms_gui.Exec.Outcome.{>>=-run}
use bms_gui.Backup.{
  BackupEnv, BackupResult, members_of, manifest_member, sole, create_backup, open_archive,
  manifest_text, restore_backup, is_excluded_from_backup,
}
use bms_gui.Backup.Files.{
  Content, Location, location_eq, location_eq_iff, location_key, Disk, is_occupied, make_directory,
  write_file,
}
use bms_gui.Backup.Archive.{Member, BackupManifest, is_manifest, manifest_name}
use bms_gui.Backup.Members.{IsTree, IsCopy, has_name, members_of-IsCopy, members_of-has_name}
use bms_gui.Backup.Created.{backed_up, create_backup-IsBackup}
use bms_gui.Backup.Restored.{RoundTrips, raise_if-run, stored_archive-opened}

-- A second manifest.
two_manifests :
    (root : Location) (d : Disk) (first : Member) (members : List Member)
    → is_manifest first ≡ true
    → All (IsCopy root d.files) members
    → has_name manifest_name members ≡ true
    → manifest_text (first ∷ members) ≡ err (backup_error "backup manifest is missing or ambiguous")
unfolding manifest_text sole
two_manifests root d first members is copies named =
    ap (λ b. sole (if b then first ∷ select is_manifest members else select is_manifest members)) is
    ∙ ambiguous members copies named
  where
    taken :
        (m : Member)
        → IsCopy root d.files m
        → location_eq m.name manifest_name ≡ true
        → is_manifest m ≡ true
    taken m c same = rw (same, c.kind) refl

    later :
        (m : Member) (b : Bool)
        → IsCopy root d.files m
        → is_manifest m ≡ false
        → (location_eq m.name manifest_name || b) ≡ true
        → b ≡ true
    later m b c none_here h = elim (Bool-cases (location_eq m.name manifest_name)) [
      | inl same ↦ let bad : true ≡ false = sym (taken m c same) ∙ none_here in cc
      | inr other ↦ ap (λ x. x || b) (sym other) ∙ h
    ]

    ambiguous :
        (ms : List Member)
        → All (IsCopy root d.files) ms
        → has_name manifest_name ms ≡ true
        → sole (first ∷ select is_manifest ms)
          ≡ err (backup_error "backup manifest is missing or ambiguous")
    ambiguous [] all h = cc
    ambiguous (m ∷ ms) all h = elim (Bool-cases (is_manifest m)) [
      | inl second ↦ rw second refl
      | inr none_here ↦ rw none_here (ambiguous ms all.1 (later m _ all.0 none_here h))
    ]

not_excluded : is_excluded_from_backup manifest_name ≡ false
unfolding is_excluded_from_backup
not_excluded = refl

lift-err :
    {S A B : Type 0} (r : Result A) (f : A → Exec S B) (s : S) {e : Error}
    → r ≡ err e
    → (lift r >>= f) s ≡ (err e, s)
unfolding ◌>>=◌
lift-err r f s h = rw h

module _ (env : BackupEnv) where
  stored-refused :
      (root root' backup_path : Location) (d : Disk) (m : BackupManifest) {text : Content}
      → RoundTrips env
      → IsTree d.files
      → lookup backup_path d.files ≡ none
      → lookup (root ++ manifest_name) d.files ≡ some text
      → is_occupied root' (
          write_file backup_path
            (env.write_archive (manifest_member env m ∷ members_of root backup_path d))
            d)
        ≡ false
      → (restore_backup env backup_path root' (
          write_file backup_path
            (env.write_archive (manifest_member env m ∷ members_of root backup_path d))
            d)).0
        ≡ err (backup_error "backup manifest is missing or ambiguous")
  unfolding restore_backup gets modify reads
  stored-refused root root' backup_path d m {text} trips tree unwritten there empty =
      ap (λ x. x.0)
        (>>=-run (gets (is_occupied root')) _ stored refl
          ∙ >>=-run (raise_if _ _) _ stored (raise_if-run _ _ stored empty)
          ∙ >>=-run (modify (make_directory root')) _ stored refl
          ∙ >>=-run (reads (open_archive env backup_path)) _ ready (ap (λ r. (r, ready)) opened)
          ∙ lift-err (manifest_text members) _ ready
              (two_manifests root d (manifest_member env m) _ refl copies named))
    where
      members : List Member
      members = manifest_member env m ∷ members_of root backup_path d

      stored : Disk
      stored = write_file backup_path (env.write_archive members) d

      ready : Disk
      ready = make_directory root' stored

      opened : open_archive env backup_path ready ≡ ok members
      opened = stored_archive-opened env trips backup_path root' members d

      copies : All (IsCopy root d.files) (members_of root backup_path d)
      copies = members_of-IsCopy root backup_path d tree

      kept : location_eq (root ++ manifest_name) backup_path ≡ false
      kept = elim (Bool-cases (location_eq (root ++ manifest_name) backup_path)) [
        | inl same ↦ absurd (
            none-some (
              sym unwritten
              ∙ ap (λ p. lookup p d.files)
                  (sym ((location_eq_iff (root ++ manifest_name) backup_path).0 same))
              ∙ there))
        | inr other ↦ other
      ]

      named : has_name manifest_name (members_of root backup_path d) ≡ true
      named = elim (Bool-cases (has_name manifest_name (members_of root backup_path d))) [
        | inl yes_named ↦ yes_named
        | inr missing ↦ absurd (
            none-some (
              sym
                (members_of-has_name root backup_path manifest_name tt not_excluded kept d missing)
              ∙ there))
      ]

  -- Where `create_backup` returned for a root that holds a backup_manifest.json, as a restored
  -- root does, `restore_backup` of its archive into an empty root raises that the manifest is
  -- missing or ambiguous. Each path has one file and is resolved, and archives are read as they
  -- were written.
  pub create_backup-ambiguous :
      (root root' : Location) (backup_dir : Option Location) (given : Option String) (d : Disk)
      {text : Content} {result : BackupResult} {stored : Disk}
      → RoundTrips env
      → IsTree (backed_up env root backup_dir d).files
      → lookup (root ++ manifest_name) (backed_up env root backup_dir d).files ≡ some text
      → create_backup env root backup_dir given d ≡ (ok result, stored)
      → is_occupied root' stored ≡ false
      → (restore_backup env result.backup_path root' stored).0
        ≡ err (backup_error "backup manifest is missing or ambiguous")
  create_backup-ambiguous root root' backup_dir given d {text} {result} {stored} trips tree there
        created empty =
      let b = create_backup-IsBackup env root backup_dir given d created in
      subst
        (λ x.
          (restore_backup env result.backup_path root' x).0
          ≡ err (backup_error "backup manifest is missing or ambiguous"))
        (sym b.written)
        (stored-refused root root' result.backup_path _ _ trips tree b.unwritten there
          (subst (λ x. is_occupied root' x ≡ false) b.written empty))
