-- ===== src/Backup/Restored.antt =====
-- The run of `restore_backup` on a backup as `create_backup` writes it.
use bms_gui.Prelude.{
  ◌≡◌, refl, ap, ◌∙◌, Bool, true, false, none, some, List, [], ◌∷◌, ◌++◌, All, String, arith, ◌&&◌,
  not,
}
use bms_gui.Dict.{lookup}
use bms_gui.Dict.Laws.{lookup-insert}
use bms_gui.Result.{Error, ok, check_each}
use bms_gui.Exec.{pure, reads, gets, lift, raise_if, modify, for_each}
use bms_gui.Exec.Outcome.{>>=-run}
use bms_gui.Backup.{
  BackupEnv, is_excluded_from_backup, members_of, count_files, validate_data_root, manifest_member,
  open_archive, manifest_text, sole, answer_invalid, read_manifest, extract, restore_backup,
}
use bms_gui.Backup.Files.{
  Content, Location, location_eq, location_key, Disk, is_occupied, make_directory, write_file,
  initialize_data_root, users_json, roles_json, durable_files,
}
use bms_gui.Backup.Files.Laws.{location_eq_refl}
use bms_gui.Backup.Archive.{Member, manifest_name, check_member, BackupManifest, validate_manifest}
use bms_gui.Backup.Members.{IsTree, IsCopy, IsBelow, members_of-IsCopy}
use bms_gui.Backup.Extracted.{
  IsPlainFile, check_each-plain, write_all, write_all-elsewhere, lookup-written, extract-plain,
}
use bms_gui.Backup.Laws.{
  restored-lookup, no_name, no_manifests, unoccupied-lookup, count_files-same, counts_eq_refl,
}
use bms_gui.Backup.Files.Identity.{initialize_data_root-again}
use bms_gui.Backup.Created.{validate_data_root-run}

-- What tarfile and pydantic write, they read.
pub record RoundTrips (env : BackupEnv) : Type 0 where
  pub archive :
      (members : List Member) → env.read_archive (env.write_archive members) ≡ some members
  pub manifest : (m : BackupManifest) → env.parse_manifest (env.dump_manifest m) ≡ ok m

pub raise_if-run :
    {S : Type 0} (test : Bool) (e : Error) (s : S) → test ≡ false → raise_if test e s ≡ (ok tt, s)
unfolding raise_if pure
raise_if-run test e s h = rw h

-- A path below a root that a backup keeps, other than that of the manifest.
unfoldable pub is_kept : Location → Bool
is_kept [] = false
is_kept (s ∷ name) =
    not (is_excluded_from_backup (s ∷ name)) && not (location_eq manifest_name (s ∷ name))

is_kept-facts :
    (name : Location)
    → is_kept name ≡ true
    → IsBelow name
      × (is_excluded_from_backup name ≡ false)
      × (location_eq manifest_name name ≡ false)
unfolding is_kept
is_kept-facts [] h = cc
is_kept-facts (s ∷ name) h = (tt, left _ _ h, right _ _ h)
  where
    left : (a b : Bool) → (not a && not b) ≡ true → a ≡ false
    left a b e = ground arith

    right : (a b : Bool) → (not a && not b) ≡ true → b ≡ false
    right a b e = ground arith

-- What was written to the archive is read.
pub stored_archive-opened :
    (env : BackupEnv)
    → RoundTrips env
    → (backup_path root' : Location) (members : List Member) (d : Disk)
    → open_archive env backup_path
        (make_directory root' (write_file backup_path (env.write_archive members) d))
      ≡ ok members
unfolding open_archive
stored_archive-opened env trips backup_path root' members d = rw (
  lookup-insert backup_path backup_path (env.write_archive members) d.files,
  location_eq_refl backup_path,
  trips.archive members,
  open_archive,
)

-- A backup as it lies on the disk, and an empty root to restore it to.
module _ (env : BackupEnv) (trips : RoundTrips env) (root backup_path root' : Location) (d : Disk)
    (m : BackupManifest) (tree : IsTree d.files) (unwritten : lookup backup_path d.files ≡ none)
    (no_manifest : lookup (root ++ manifest_name) d.files ≡ none)
    (valid : validate_manifest m ≡ ok tt)
    (counted : count_files env root d ≡ ok m.verified_record_counts) (documents : Content × Content)
    (users roles : Content) (has_users : lookup (root ++ users_json) d.files ≡ some users)
    (has_roles : lookup (root ++ roles_json) d.files ≡ some roles) where
  abbrev all_members : List Member
  all_members = manifest_member env m ∷ members_of root backup_path d

  abbrev stored_backup : Disk
  stored_backup = write_file backup_path (env.write_archive all_members) d

  module _ (empty : is_occupied root' stored_backup ≡ false) where
    abbrev extracted : Disk
    extracted = write_all root' all_members (make_directory root' stored_backup)

    abbrev restored : Disk
    restored = initialize_data_root env.identity_documents root' extracted

    extracted-lookup :
        (name : Location)
        → is_kept name ≡ true
        → lookup (root' ++ name) extracted.files ≡ lookup (root ++ name) d.files
    extracted-lookup name kept =
        let (below, included, other) = is_kept-facts name kept in
        restored-lookup root backup_path d tree unwritten (manifest_member env m) refl root' name
          (make_directory root' stored_backup) below included other
          (unoccupied-lookup root' name stored_backup empty below)

    restored-files : restored.files ≡ extracted.files
    unfolding is_excluded_from_backup is_kept
    restored-files =
        initialize_data_root-again env.identity_documents root' extracted
          (extracted-lookup users_json refl ∙ has_users)
          (extracted-lookup roles_json refl ∙ has_roles)

    pub restored_name :
        (name : Location)
        → is_kept name ≡ true
        → lookup (root' ++ name) restored.files ≡ lookup (root ++ name) d.files
    restored_name name kept =
        ap (lookup (root' ++ name)) restored-files ∙ extracted-lookup name kept

    -- The manifest is extracted like any member.
    pub restored_manifest :
        lookup (root' ++ manifest_name) restored.files ≡ some (env.dump_manifest m)
    restored_manifest =
        ap (lookup (root' ++ manifest_name)) restored-files
        ∙ write_all-elsewhere root' manifest_name (members_of root backup_path d) _
            (no_name root backup_path d tree unwritten (manifest_member env m) refl no_manifest)
        ∙ lookup-written root' manifest_name (manifest_member env m)
            (make_directory root' stored_backup)

    restored-counted : count_files env root' restored ≡ ok m.verified_record_counts
    unfolding is_excluded_from_backup is_kept
    restored-counted =
        count_files-same env root root' d restored (durable durable_files refl) ∙ counted
      where
        all_kept : List (String × Location) → Bool
        all_kept [] = true
        all_kept (f ∷ fs) = is_kept f.1 && all_kept fs

        both : (a b : Bool) → (a && b) ≡ true → (a ≡ true) × (b ≡ true)
        both a b h = ground arith

        durable :
            (fs : List (String × Location))
            → all_kept fs ≡ true
            → All (λ f. lookup (root' ++ f.1) restored.files ≡ lookup (root ++ f.1) d.files) fs
        durable [] h = tt
        durable (f ∷ fs) h = (restored_name f.1 (both _ _ h).0, durable fs (both _ _ h).1)

    All-IsPlainFile : All IsPlainFile all_members
    All-IsPlainFile = (
      record { kind = refl; below = tt; plain = (refl, tt) },
      copies _ (members_of-IsCopy root backup_path d tree),
    )
      where
        copies : (ms : List Member) → All (IsCopy root d.files) ms → All IsPlainFile ms
        copies [] all = tt
        copies (c ∷ ms) all = (
          record { kind = all.0.kind; below = all.0.below; plain = all.0.plain },
          copies ms all.1,
        )

    opened : open_archive env backup_path (make_directory root' stored_backup) ≡ ok all_members
    opened = stored_archive-opened env trips backup_path root' all_members d

    manifest-found : manifest_text all_members ≡ ok (env.dump_manifest m)
    unfolding manifest_text sole
    manifest-found = rw (
      no_manifests root backup_path d tree unwritten (manifest_member env m) refl no_manifest,
      manifest_text,
    )

    manifest-read : read_manifest env (env.dump_manifest m) ≡ ok m
    unfolding read_manifest answer_invalid
    manifest-read = rw (trips.manifest m, valid, read_manifest)

    pub restore_backup-run : restore_backup env backup_path root' stored_backup ≡ (
      ok (record { restored_root = root'; verified_record_counts = m.verified_record_counts }),
      restored,
    )
    unfolding restore_backup gets modify reads lift pure
    restore_backup-run =
        >>=-run (gets (is_occupied root')) _ _ refl
        ∙ >>=-run (raise_if _ _) _ _ (raise_if-run _ _ _ empty)
        ∙ >>=-run (modify (make_directory root')) _ _ refl
        ∙ >>=-run (reads (open_archive env backup_path)) _ _
            (ap (λ r. (r, make_directory root' stored_backup)) opened)
        ∙ >>=-run (lift (manifest_text all_members)) _ _
            (ap (λ r. (r, make_directory root' stored_backup)) manifest-found)
        ∙ >>=-run (lift (read_manifest env (env.dump_manifest m))) _ _
            (ap (λ r. (r, make_directory root' stored_backup)) manifest-read)
        ∙ >>=-run (lift (check_each all_members (check_member root'))) _ _ (
            ap (λ r. (r, make_directory root' stored_backup))
              (check_each-plain root' all_members All-IsPlainFile))
        ∙ >>=-run (for_each all_members (extract env root')) _ _
            (extract-plain env root' all_members _ All-IsPlainFile)
        ∙ >>=-run (validate_data_root env root') _ _
            (validate_data_root-run env root' _ ∙ ap (λ r. (r, restored)) restored-counted)
        ∙ >>=-run (raise_if _ _) _ _
            (raise_if-run _ _ _ (ap not (counts_eq_refl m.verified_record_counts)))
