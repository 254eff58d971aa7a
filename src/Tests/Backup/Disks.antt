-- ===== src/Tests/Backup/Disks.antt =====
-- An environment for the runs of the backup, and the disks that they lead to.
use bms_gui.Prelude.{
  ℕ, String, ◌≡◌, refl, ap, ap₂, Option, none, some, List, [], ◌∷◌, ◌++◌, ℤ, pos, if◌then◌else◌,
  nat_eq,
}
use bms_gui.Dict.{Dict, lookup}
use bms_gui.Result.{Result, ok, err, json_error}
use bms_gui.Backup.{BackupEnv, BackupResult, create_backup, restore_backup, safe_timestamp}
use bms_gui.Backup.Files.{
  Content, plain_text, packed, described, Entries, end, entry, Location, location_key, Disk,
  is_occupied, relative_to, make_directories, data_directories,
}
use bms_gui.Backup.Archive.{
  Member, MemberKind, regular, folder, other, BackupManifest, manifest_name,
}
use bms_gui.Backup.Restored.{RoundTrips}

abbrev pub kind_code : MemberKind → ℕ
kind_code regular = 0
kind_code folder = 1
kind_code other = 2

abbrev pub kind_from : ℕ → MemberKind
kind_from n = if nat_eq n 0 then regular else if nat_eq n 1 then folder else other

abbrev pub entries_of : List Member → Entries
entries_of [] = end
entries_of (m ∷ members) = entry m.name (kind_code m.kind) m.content (entries_of members)

abbrev pub member_with : Member → MemberKind → Member
member_with m kind = record { name = m.name; kind = kind; content = m.content }

abbrev pub members_from : Entries → List Member
members_from end = []
members_from (entry name kind content rest) =
    record { name = name; kind = kind_from kind; content = content } ∷ members_from rest

abbrev pub unpack : Content → Option (List Member)
unpack (packed entries) = some (members_from entries)
unpack _ = none

abbrev pub parse : Content → Result BackupManifest
parse (described format created_at counts) =
    ok (record { format = format; created_at = created_at; verified_record_counts = counts })
parse _ = err (json_error "not a manifest")

abbrev pub backup_env : BackupEnv
backup_env = record {
  verify_file = λ content. ok 1;
  write_archive = λ members. packed (entries_of members);
  read_archive = unpack;
  dump_manifest = λ m. described m.format m.created_at m.verified_record_counts;
  parse_manifest = parse;
  now = "2026-05-14T12:00:00Z";
  identity_documents = (plain_text "users", plain_text "roles");
}

kind_from-kind_code : (k : MemberKind) → kind_from (kind_code k) ≡ k
kind_from-kind_code regular = refl
kind_from-kind_code folder = refl
kind_from-kind_code other = refl

members_from-entries_of : (members : List Member) → members_from (entries_of members) ≡ members
members_from-entries_of [] = refl
members_from-entries_of (m ∷ members) =
    ap₂ (λ k rest. member_with m k ∷ rest) (kind_from-kind_code m.kind)
      (members_from-entries_of members)

pub backup_env-RoundTrips : RoundTrips backup_env
backup_env-RoundTrips = record {
  archive = λ members. ap some (members_from-entries_of members);
  manifest = λ m. refl;
}

-- What the runs compute through.
unfoldable pub backups : Unit {0}
unfolding lookup bms_gui.Dict.insert is_occupied relative_to create_backup restore_backup
    safe_timestamp bms_gui.Exec.◌>>=◌ bms_gui.Exec.modify bms_gui.Exec.raise_if bms_gui.Exec.gets
    bms_gui.Exec.lift bms_gui.Exec.pure bms_gui.Exec.raise bms_gui.Exec.reads bms_gui.Exec.for_each
    bms_gui.Result.fold_each bms_gui.Result.check_each bms_gui.Dict.Keys.sorted_items
    bms_gui.Prelude.insert_by bms_gui.Prelude.sort_by bms_gui.Backup.Files.initialize_data_root
    bms_gui.Backup.Files.initialize_identity_files bms_gui.Backup.Files.write_missing
    bms_gui.Backup.Files.make_directories bms_gui.Backup.validate_data_root
    bms_gui.Backup.count_files bms_gui.Backup.count_file bms_gui.Backup.archived
    bms_gui.Backup.is_excluded_from_backup bms_gui.Backup.member_at bms_gui.Backup.member_of
    bms_gui.Backup.members_of bms_gui.Backup.extract bms_gui.Backup.manifest_text
    bms_gui.Backup.open_archive bms_gui.Backup.read_manifest bms_gui.Backup.sole
    bms_gui.Backup.answer_invalid bms_gui.Fields.join bms_gui.Backup.Archive.validate_manifest
    bms_gui.Backup.Archive.check_member bms_gui.Backup.Archive.counts_eq
    bms_gui.Backup.Archive.extract_at bms_gui.Backup.Archive.extract_member
    bms_gui.Backup.Archive.parent bms_gui.Backup.Archive.step bms_gui.Backup.Archive.target_of
    bms_gui.Backup.Archive.walk
backups = tt

-- The directories that a data root has, before others.
abbrev pub directories_below : Location → List Location → List Location
directories_below root others =
    (make_directories root data_directories
      (record { directories = others; files = [] })).directories

abbrev pub counts : Dict String ℤ
counts = ("journal_entries", pos 1) ∷ []

-- A root with one record file, before and after the identity files are written.
abbrev pub live : Disk
live = record {
  directories = [];
  files = (("data" ∷ "accounting" ∷ "journal_entries.jsonl" ∷ []), plain_text "entry") ∷ [];
}

abbrev pub root_files : String → Dict Location Content
root_files root =
    ((root ∷ "accounting" ∷ "journal_entries.jsonl" ∷ []), plain_text "entry")
    ∷ ((root ∷ "users" ∷ "users.json" ∷ []), plain_text "users")
    ∷ ((root ∷ "users" ∷ "roles.json" ∷ []), plain_text "roles")
    ∷ []

abbrev pub copy : List String → Content → Member
copy name content = record { name = name; kind = regular; content = content }

abbrev pub manifest : Content
manifest = described "bms.backup.v1" "2026-05-14T12:00:00Z" counts

abbrev pub archive : Content
archive = packed (
    entries_of (
      copy manifest_name manifest
      ∷ copy ("accounting" ∷ "journal_entries.jsonl" ∷ []) (plain_text "entry")
      ∷ copy ("users" ∷ "roles.json" ∷ []) (plain_text "roles")
      ∷ copy ("users" ∷ "users.json" ∷ []) (plain_text "users")
      ∷ []))

abbrev pub backup_in : String → BackupResult
backup_in root = record {
  backup_path = root ∷ "backups" ∷ "bms-backup-20260514T120000z.tar.gz" ∷ [];
  created_at = "2026-05-14T12:00:00Z";
  verified_record_counts = counts;
}

-- The disk with the first backup.
abbrev pub stored : Disk
stored = record {
  directories = directories_below ("data" ∷ []) (("data" ∷ "backups" ∷ []) ∷ []);
  files = root_files "data" ++ ((backup_in "data").backup_path, archive) ∷ [];
}

-- The disk with what was restored from it, and its manifest.
abbrev pub restored : Disk
restored = record {
  directories = directories_below ("restored" ∷ []) (("restored" ∷ []) ∷ stored.directories);
  files =
      stored.files
      ++ (("restored" ∷ "backup_manifest.json" ∷ []), manifest)
        ∷ (("restored" ∷ "accounting" ∷ "journal_entries.jsonl" ∷ []), plain_text "entry")
        ∷ (("restored" ∷ "users" ∷ "roles.json" ∷ []), plain_text "roles")
        ∷ (("restored" ∷ "users" ∷ "users.json" ∷ []), plain_text "users")
        ∷ [];
}

abbrev pub archive_again : Content
archive_again = packed (
    entries_of (
      copy manifest_name manifest
      ∷ copy ("accounting" ∷ "journal_entries.jsonl" ∷ []) (plain_text "entry")
      ∷ copy manifest_name manifest
      ∷ copy ("users" ∷ "roles.json" ∷ []) (plain_text "roles")
      ∷ copy ("users" ∷ "users.json" ∷ []) (plain_text "users")
      ∷ []))

-- The disk with a backup of what was restored.
abbrev pub stored_again : Disk
stored_again = record {
  directories =
      directories_below ("restored" ∷ []) (("restored" ∷ "backups" ∷ []) ∷ restored.directories);
  files = restored.files ++ ((backup_in "restored").backup_path, archive_again) ∷ [];
}
