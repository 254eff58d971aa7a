-- ===== src/Backup/Files.antt =====
-- The files that the backup works on, as trees of texts, and `initialize_data_root` of
-- src/bms/app/bootstrap.py. A file never stands where a directory does, and there are no links.
pub mod Laws
pub mod Identity
use bms_gui.Prelude.{
  ◌≡◌, ◌↔◌, Bool, true, false, ◌&&◌, ◌||◌, Option, none, some, List, [], ◌∷◌, ◌++◌, map, String,
  str_eq, eq_iff, ℕ, ℤ, arith, if◌then◌else◌,
}
use bms_gui.Dict.{Eq, Dict, lookup, insert}
use bms_gui.Store.{wal}

-- The parts of a resolved path.
abbrev pub Location : Type 0
Location = List String

abbrev pub location_eq : Location → Location → Bool
location_eq [] [] = true
location_eq (s ∷ p) (t ∷ q) = str_eq s t && location_eq p q
location_eq _ _ = false

pub location_eq_iff : (p q : Location) → (location_eq p q ≡ true) ↔ (p ≡ q)
location_eq_iff [] [] = ground arith
location_eq_iff [] (t ∷ q) = ground arith
location_eq_iff (s ∷ p) [] = ground arith
location_eq_iff (s ∷ p) (t ∷ q) = ground (arith, eq_iff s t, location_eq_iff p q)

instance abbrev pub location_key : Eq Location
location_key = record { beq = location_eq; beq_iff = location_eq_iff }

-- What a file holds: a text, or bytes that are known by the values they were made of, the members
-- of an archive or the fields of a manifest.
mutual
  pub data Content : Type 0 where
    plain_text : String → Content
    packed : Entries → Content
    described : String → String → List (String × ℤ) → Content

  -- The members, with their names, their kinds and what they hold.
  pub data Entries : Type 0 where
    end : Entries
    entry : List String → ℕ → Content → Entries → Entries

pub record Disk : Type 0 where
  pub directories : List Location
  pub files : Dict Location Content

-- `path.relative_to(root)`, or none where it is elsewhere.
unfoldable pub relative_to : Location → Location → Option Location
relative_to [] path = some path
relative_to (s ∷ root) [] = none
relative_to (s ∷ root) (t ∷ path) = if str_eq s t then relative_to root path else none

-- A path strictly below.
abbrev pub is_entry : Option Location → Bool
is_entry (some (s ∷ path)) = true
is_entry _ = false

abbrev pub has_entry : Location → List Location → Bool
has_entry root [] = false
has_entry root (path ∷ paths) = is_entry (relative_to root path) || has_entry root paths

abbrev pub paths_of : Dict Location Content → List Location
paths_of files = map (λ f. f.0) files

-- `root.exists() and any(root.iterdir())`
unfoldable pub is_occupied : Location → Disk → Bool
is_occupied root d = has_entry root d.directories || has_entry root (paths_of d.files)

-- `path.exists()`, for a file.
abbrev pub is_there : Option Content → Bool
is_there none = false
is_there (some content) = true

abbrev pub exists_file : Location → Disk → Bool
exists_file path d = is_there (lookup path d.files)

-- `path.mkdir(parents=True, exist_ok=True)`
abbrev pub make_directory : Location → Disk → Disk
make_directory path d = record d { directories = path ∷ d.directories }

-- `path.write_text(text)`
abbrev pub write_file : Location → Content → Disk → Disk
write_file path content d = record d { files = insert path content d.files }

-- `if not path.exists(): path.write_text(text)`
unfoldable pub write_missing : Location → Content → Disk → Disk
write_missing path content d = elim (lookup path d.files) [
  | none ↦ write_file path content d
  | some old ↦ d
]

-- `DATA_DIRECTORIES`
abbrev pub data_directories : List Location
data_directories =
    ("wal" ∷ "archive" ∷ [])
    ∷ ("events" ∷ [])
    ∷ ("accounting" ∷ "snapshots" ∷ [])
    ∷ ("inventory" ∷ "snapshots" ∷ [])
    ∷ ("billing" ∷ "snapshots" ∷ [])
    ∷ ("billing" ∷ "refunds" ∷ [])
    ∷ ("audit" ∷ [])
    ∷ ("users" ∷ [])
    ∷ ("tax" ∷ [])
    ∷ ("recovery" ∷ [])
    ∷ ("reports" ∷ "generated" ∷ [])
    ∷ ("backups" ∷ [])
    ∷ ("temp" ∷ [])
    ∷ []

unfoldable pub make_directories : Location → List Location → Disk → Disk
make_directories root [] d = d
make_directories root (path ∷ paths) d =
    make_directories root paths (make_directory (root ++ path) d)

abbrev pub users_json : Location
users_json = "users" ∷ "users.json" ∷ []

abbrev pub roles_json : Location
roles_json = "users" ∷ "roles.json" ∷ []

-- With the two texts of `default_identity_documents`.
unfoldable pub initialize_identity_files : Content × Content → Location → Disk → Disk
initialize_identity_files documents root d =
    write_missing (root ++ roles_json) documents.1
      (write_missing (root ++ users_json) documents.0 d)

unfoldable pub initialize_data_root : Content × Content → Location → Disk → Disk
initialize_data_root documents root d =
    initialize_identity_files documents root (make_directories root data_directories d)

-- `_DURABLE_FILE_ATTRIBUTES`, with the place of each file below the root.
abbrev pub durable_files : List (String × Location)
durable_files =
    ("wal", "wal" ∷ "current.wal.jsonl" ∷ [])
    ∷ ("business_events", "events" ∷ "business_events.jsonl" ∷ [])
    ∷ ("journal_entries", "accounting" ∷ "journal_entries.jsonl" ∷ [])
    ∷ ("journal_lines", "accounting" ∷ "journal_lines.jsonl" ∷ [])
    ∷ ("periods", "accounting" ∷ "periods.jsonl" ∷ [])
    ∷ ("items", "inventory" ∷ "items.jsonl" ∷ [])
    ∷ ("stock_movements", "inventory" ∷ "stock_movements.jsonl" ∷ [])
    ∷ ("invoices", "billing" ∷ "invoices.jsonl" ∷ [])
    ∷ ("invoice_lines", "billing" ∷ "invoice_lines.jsonl" ∷ [])
    ∷ ("refunds", "billing" ∷ "refunds" ∷ "refunds.jsonl" ∷ [])
    ∷ ("refund_lines", "billing" ∷ "refunds" ∷ "refund_lines.jsonl" ∷ [])
    ∷ ("audit_records", "audit" ∷ "audit_records.jsonl" ∷ [])
    ∷ ("reconciliation_records", "recovery" ∷ "reconciliation_records.jsonl" ∷ [])
    ∷ []
