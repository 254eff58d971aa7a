-- ===== src/Backup/Archive.antt =====
-- The archives of src/bms/services/backup.py: their members, the checks of `restore_backup` on
-- them, and what `extractall` of tarfile writes, with its filter "data".
use bms_gui.Prelude.{
  Bool, true, false, not, ◌&&◌, ◌||◌, Option, none, some, List, [], ◌∷◌, ◌++◌, ℤ, pos, leb_ℤ,
  String, str_eq, eqb_ℤ, map, if◌then◌else◌,
}
use bms_gui.Dict.{Dict, lookup}
use bms_gui.Dict.Keys.{string_key}
use bms_gui.Fields.{◌&◌, truthy, join}
use bms_gui.Result.{
  Result, ok, err, backup_error, validation_error, os_error, tar_error, fail_if, check_each, ◌>>◌,
}
use bms_gui.Backup.Files.{
  Content, Location, location_eq, Disk, relative_to, make_directory, write_file,
}

pub data MemberKind : Type 0 where
  regular folder other : MemberKind

-- A member; its name as it stands in the archive, cut at each "/".
pub record Member : Type 0 where
  pub name : List String
  pub kind : MemberKind
  pub content : Content

abbrev pub is_regular : MemberKind → Bool
is_regular regular = true
is_regular _ = false

abbrev pub is_other : MemberKind → Bool
is_other other = true
is_other _ = false

-- The path without its last part; the root of the disk is its own parent.
unfoldable pub parent : Location → Location
parent [] = []
parent (s ∷ []) = []
parent (s ∷ t ∷ path) = s ∷ parent (t ∷ path)

-- A step of `Path.resolve()`.
unfoldable pub step : Location → String → Location
step path part =
    if str_eq part "" || str_eq part "."
    then path
    else if str_eq part ".."
    then parent path
    else path ++ part ∷ []

unfoldable pub walk : Location → List String → Location
walk path [] = path
walk path (part ∷ parts) = walk (step path part) parts

-- A name with a leading "/".
abbrev pub is_absolute : List String → Bool
is_absolute [] = false
is_absolute (first ∷ []) = false
is_absolute (first ∷ second ∷ parts) = str_eq first ""

-- `(restored_root / member.name).resolve()`
unfoldable pub target_of : Location → List String → Location
target_of root name = if is_absolute name then walk [] name else walk root name

abbrev pub is_found : Option Location → Bool
is_found none = false
is_found (some path) = true

-- `target.is_relative_to(root)`
abbrev pub is_within : Location → Location → Bool
is_within root path = is_found (relative_to root path)

-- The body of the loop over the members.
unfoldable pub check_member : Location → Member → Result (Unit {0})
check_member root member = do
  fail_if (is_other member.kind)
      (backup_error ("backup member has unsafe type: " & join "/" member.name))
  fail_if (not (is_within root (target_of root member.name)))
      (backup_error ("backup member escapes restore root: " & join "/" member.name))

-- What is written for a member whose place below the root is given.
unfoldable pub extract_at : Location → Option Location → Member → Disk → Result Disk
extract_at path none member d = err (tar_error "outside destination")
extract_at path (some []) member d =
    if is_regular member.kind then err (os_error "is a directory") else ok d
extract_at path (some (s ∷ rest)) member d =
    if is_regular member.kind
    then ok (write_file path member.content d)
    else ok (make_directory path d)

-- `extractall` takes a leading "/" off and refuses what would lie outside.
unfoldable pub extract_member : Location → Member → Disk → Result Disk
extract_member root member d =
    let path = walk root member.name in extract_at path (relative_to root path) member d

-- `backup_manifest.json`
abbrev pub manifest_name : List String
manifest_name = "backup_manifest.json" ∷ []

abbrev pub is_manifest : Member → Bool
is_manifest member = location_eq member.name manifest_name && is_regular member.kind

pub record BackupManifest : Type 0 where
  pub format : String
  pub created_at : String
  pub verified_record_counts : Dict String ℤ

-- The validators of `BackupManifestSchema`.
unfoldable pub validate_manifest : BackupManifest → Result (Unit {0})
validate_manifest manifest = do
  fail_if (not (str_eq manifest.format "bms.backup.v1"))
      (validation_error "unsupported backup format")
  fail_if (not (truthy manifest.created_at)) (validation_error "created_at is required")
  check_each manifest.verified_record_counts λ count.
      (fail_if (not (truthy count.0)) (validation_error "record count names must be non-empty")
        >> fail_if (not (leb_ℤ (pos 0) count.1))
            (validation_error ("record count for " & count.0 & " cannot be negative")))

abbrev pub option_eq : Option ℤ → Option ℤ → Bool
option_eq none none = true
option_eq (some m) (some n) = eqb_ℤ m n
option_eq _ _ = false

-- The counts of the names are the same.
abbrev pub agree_on : Dict String ℤ → Dict String ℤ → List String → Bool
agree_on a b [] = true
agree_on a b (name ∷ names) = option_eq (lookup name a) (lookup name b) && agree_on a b names

-- `==` of two dictionaries
unfoldable pub counts_eq : Dict String ℤ → Dict String ℤ → Bool
counts_eq a b = agree_on a b (map (λ c. c.0) a) && agree_on a b (map (λ c. c.0) b)
