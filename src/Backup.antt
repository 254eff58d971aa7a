-- ===== src/Backup.antt =====
-- `BackupService` of src/bms/services/backup.py.
pub mod Files
pub mod Archive
pub mod Inside
pub mod Members
pub mod Extracted
pub mod Laws
pub mod Created
pub mod Restored
pub mod RoundTrip
pub mod Again
use Prim.Native.Char.{code}
use Prim.Native.String as Text
use bms_gui.Prelude.{
  Bool, true, false, not, ◌||◌, Option, none, some, List, [], ◌∷◌, ◌++◌, map, select, is_empty, ℤ,
  pos, ℕ, length, nat_eq, String, str_eq, str_in, sort_by, if◌then◌else◌,
}
use bms_gui.Dict.{Dict, lookup, insert}
use bms_gui.Dict.Keys.{string_key, sorted_items, str_le}
use bms_gui.Fields.{◌&◌, truthy, join}
use bms_gui.Result as R
use bms_gui.Result.{
  Result, ok, err, backup_error, validation_error, json_error, os_error, tar_error, fold_each,
  fail_if, check_each,
}
use bms_gui.Exec.{Exec, pure, reads, gets, lift, raise_if, modify, for_each, ◌>>=◌, ◌>>◌}
use bms_gui.Backup.Files.{
  Content, Location, location_eq, location_key, Disk, relative_to, is_occupied, exists_file,
  make_directory, write_file, initialize_data_root, durable_files,
}
use bms_gui.Backup.Archive.{
  Member, regular, is_manifest, manifest_name, check_member, extract_member, BackupManifest,
  validate_manifest, counts_eq,
}

-- What the service asks of code that is not here: the verification of a record file by the C core,
-- the bytes of an archive by tarfile, the text of a manifest by pydantic, the clock, and the texts
-- of the two identity documents.
pub record BackupEnv : Type 0 where
  pub verify_file : Content → Result ℕ
  pub write_archive : List Member → Content
  pub read_archive : Content → Option (List Member)
  pub dump_manifest : BackupManifest → Content
  pub parse_manifest : Content → Result BackupManifest
  pub now : String
  pub identity_documents : Content × Content

pub record BackupResult : Type 0 where
  pub backup_path : Location
  pub created_at : String
  pub verified_record_counts : Dict String ℤ

pub record RestoreResult : Type 0 where
  pub restored_root : Location
  pub verified_record_counts : Dict String ℤ

-- `_safe_timestamp`: without ":", "-" and ".", and with "z" for "Z".
unfoldable pub safe_timestamp : String → String
safe_timestamp Text.[] = ""
safe_timestamp (Text.◌∷◌ c s) =
    let rest = safe_timestamp s in
    if nat_eq (code c) 58 || nat_eq (code c) 45 || nat_eq (code c) 46
    then rest
    else if nat_eq (code c) 90
    then "z" & rest
    else Text.◌∷◌ c rest

-- `_is_excluded_from_backup`, of a path below the root.
unfoldable pub is_excluded_from_backup : Location → Bool
is_excluded_from_backup [] = false
is_excluded_from_backup (first ∷ path) = str_eq first "backups" || str_eq first "temp"

-- The order of paths, part by part.
abbrev pub location_le : Location → Location → Bool
location_le [] q = true
location_le (s ∷ p) [] = false
location_le (s ∷ p) (t ∷ q) = if str_eq s t then location_le p q else str_le s t

abbrev pub file_le : Location × Content → Location × Content → Bool
file_le f g = location_le f.0 g.0

-- The member of a file whose place below the root is given, or none where it is not archived.
unfoldable pub member_at : Location → Location → Content → Option Location → Option Member
member_at backup_path path text none = none
member_at backup_path path text (some []) = none
member_at backup_path path text (some (s ∷ rest)) =
    if location_eq path backup_path || is_excluded_from_backup (s ∷ rest)
    then none
    else some (record { name = s ∷ rest; kind = regular; content = text })

unfoldable pub member_of : Location → Location → Location × Content → Option Member
member_of root backup_path (path, text) = member_at backup_path path text (relative_to root path)

-- The loop over `sorted(data_root.rglob("*"))`.
unfoldable pub archived : Location → Location → Dict Location Content → List Member
archived root backup_path [] = []
archived root backup_path (file ∷ files) =
    let rest = archived root backup_path files in
    elim (member_of root backup_path file) [ none ↦ rest | some member ↦ member ∷ rest ]

unfoldable pub members_of : Location → Location → Disk → List Member
members_of root backup_path d = archived root backup_path (sort_by file_le d.files)

abbrev pub directory_of : Location → Option Location → Location
directory_of root none = root ++ "backups" ∷ []
directory_of root (some directory) = directory

abbrev pub path_of : Location → String → Location
path_of directory created_at =
    directory ++ ("bms-backup-" & safe_timestamp created_at & ".tar.gz") ∷ []

-- `str(path)`
abbrev pub path_text : Location → String
path_text path = "/" & join "/" path

abbrev pub manifest_of : String → Dict String ℤ → BackupManifest
manifest_of created_at counts = record {
  format = "bms.backup.v1";
  created_at = created_at;
  verified_record_counts = counts;
}

-- The text of the one manifest.
unfoldable pub sole : List Member → Result Content
sole (first ∷ []) = ok first.content
sole _ = err (backup_error "backup manifest is missing or ambiguous")

unfoldable pub manifest_text : List Member → Result Content
manifest_text members = sole (select is_manifest members)

-- `except (ValidationError, json.JSONDecodeError)`
unfoldable pub answer_invalid : Result BackupManifest → Result BackupManifest
answer_invalid (ok manifest) = ok manifest
answer_invalid (err (validation_error message)) = err (backup_error "backup manifest is invalid")
answer_invalid (err (json_error message)) = err (backup_error "backup manifest is invalid")
answer_invalid (err error) = err error

module _ (env : BackupEnv) where
  -- The body of the loop of `validate_data_root`, below a root.
  unfoldable pub count_file :
      Location → Dict Location Content → Dict String ℤ → String × Location → Result (Dict String ℤ)
  count_file root files counts (name, path) = elim (lookup (root ++ path) files) [
    | none ↦ ok counts
    | some text ↦ R.◌>>=◌ (env.verify_file text) λ n. ok (insert name (pos n) counts)
  ]

  unfoldable pub count_files : Location → Disk → Result (Dict String ℤ)
  count_files root d =
      R.◌>>=◌ (fold_each (count_file root d.files) [] durable_files)
        λ counts. ok (sorted_items counts)

  unfoldable pub validate_data_root : Location → Exec Disk (Dict String ℤ)
  validate_data_root root = do
    modify (initialize_data_root env.identity_documents root)
    reads (count_files root)

  abbrev pub manifest_member : BackupManifest → Member
  manifest_member manifest = record {
    name = manifest_name;
    kind = regular;
    content = env.dump_manifest manifest;
  }

  -- `created_at or _utc_now()`
  abbrev pub time_of : Option String → String
  time_of none = env.now
  time_of (some s) = if truthy s then s else env.now

  unfoldable pub create_backup : Location → Option Location → Option String → Exec Disk BackupResult
  create_backup root backup_dir given = do
    let created_at = time_of given
    let path = path_of (directory_of root backup_dir) created_at
    modify (make_directory (directory_of root backup_dir))
    counts ← validate_data_root root
    found ← gets (exists_file path)
    raise_if found (backup_error ("backup already exists: " & path_text path))
    lift (validate_manifest (manifest_of created_at counts))
    members ← gets (members_of root path)
    modify (
        write_file path
          (env.write_archive (manifest_member (manifest_of created_at counts) ∷ members)))
    pure (record { backup_path = path; created_at = created_at; verified_record_counts = counts })

  -- `tarfile.open(backup_path, "r:gz")` and `getmembers()`.
  unfoldable pub open_archive : Location → Disk → Result (List Member)
  open_archive path d = elim (lookup path d.files) [
    | none ↦ err (os_error "no such file")
    | some text ↦ elim (env.read_archive text) [
      | none ↦ err (tar_error "not an archive")
      | some members ↦ ok members
    ]
  ]

  unfoldable pub read_manifest : Content → Result BackupManifest
  read_manifest text = answer_invalid (
      R.◌>>=◌ (env.parse_manifest text)
        λ manifest. R.◌>>=◌ (validate_manifest manifest) λ done. ok manifest)

  -- `archive.extractall(restored_root, filter="data")`; what was written before an error stays.
  unfoldable pub extract : Location → Member → Exec Disk (Unit {0})
  extract root member d = elim (extract_member root member d) [
    | err error ↦ (err error, d)
    | ok d' ↦ (ok tt, d')
  ]

  unfoldable pub restore_backup : Location → Location → Exec Disk RestoreResult
  restore_backup backup_path root = do
    occupied ← gets (is_occupied root)
    raise_if occupied (backup_error ("restore target " & path_text root & " is not empty"))
    modify (make_directory root)
    members ← reads (open_archive backup_path)
    text ← lift (manifest_text members)
    manifest ← lift (read_manifest text)
    lift (check_each members (check_member root))
    for_each members (extract root)
    counts ← validate_data_root root
    raise_if (not (counts_eq counts manifest.verified_record_counts))
        (backup_error "restored record counts do not match backup manifest")
    pure (record { restored_root = root; verified_record_counts = counts })
