-- ===== src/Backup/Inside.antt =====
-- `restore_backup` writes below the root that it restores, and nowhere else.
use bms_gui.Prelude.{
  ◌≡◌, refl, ◌∙◌, subst, if_true, if_false, Bool-cases, inl, inr, Option, none, some, [], ◌∷◌,
}
use bms_gui.Dict.{lookup}
use bms_gui.Result.{ok, ok-eq, Result-cases}
use bms_gui.Exec.{modify}
use bms_gui.Exec.Keeps.{Keeps, keeps_rules}
use bms_gui.Backup.{BackupEnv, validate_data_root, extract, restore_backup}
use bms_gui.Backup.Files.{
  Content, Location, location_key, Disk, relative_to, make_directory, initialize_data_root,
}
use bms_gui.Backup.Files.Laws.{location_ne, write_file-elsewhere, initialize_data_root-elsewhere}
use bms_gui.Backup.Archive.{Member, is_regular, extract_at, extract_member}

-- A path holds what it held.
record Holds (path : Location) (before : Option Content) (d : Disk) : Type 0 where
  pub held : lookup path d.files ≡ before

module _ (env : BackupEnv) (root path : Location) (before : Option Content)
    (outside : relative_to root path ≡ none) where
  make_directory-Keeps : (q : Location) → Keeps (Holds path before) (modify (make_directory q))
  unfolding modify
  make_directory-Keeps q = record { at = λ d h. record { held = h.held } }

  initialize-Keeps :
      Keeps (Holds path before) (modify (initialize_data_root env.identity_documents root))
  unfolding modify
  initialize-Keeps = record {
    at = λ d h. record {
      held = initialize_data_root-elsewhere env.identity_documents root path d outside ∙ h.held;
    };
  }

  validate-Keeps : Keeps (Holds path before) (validate_data_root env root)
  unfolding validate_data_root
  validate-Keeps = search (keeps_rules, initialize-Keeps)

  extract_at-Holds :
      (q : Location) (place : Option Location) (member : Member) (d : Disk) {d' : Disk}
      → relative_to root q ≡ place
      → extract_at q place member d ≡ ok d'
      → Holds path before d
      → Holds path before d'
  unfolding extract_at
  extract_at-Holds q none member d e h k = cc
  extract_at-Holds q (some []) member d e h k = elim (Bool-cases (is_regular member.kind)) [
    | inl regular ↦ cc
    | inr other ↦
        subst (Holds path before) (ok-eq (if_false (is_regular member.kind) _ _ other h)) k
  ]
  extract_at-Holds q (some (s ∷ rest)) member d e h k = elim (Bool-cases (is_regular member.kind)) [
    | inl regular ↦
        subst (Holds path before) (ok-eq (if_true (is_regular member.kind) _ _ regular h)) (record {
          held =
              write_file-elsewhere path q member.content d (location_ne root path q outside e)
              ∙ k.held;
        })
    | inr other ↦
        subst (Holds path before) (ok-eq (if_false (is_regular member.kind) _ _ other h))
          (record { held = k.held })
  ]

  extract-Keeps : (member : Member) → Keeps (Holds path before) (extract env root member)
  unfolding extract extract_at extract_member
  extract-Keeps member = record {
    at = λ d k. elim (Result-cases (extract_member root member d)) [
      | inl (d', h) ↦ rw (h, extract) (extract_at-Holds _ _ member d refl h k)
      | inr (e, h) ↦ rw (h, extract) k
    ];
  }

  restore-Keeps :
      (backup_path : Location) → Keeps (Holds path before) (restore_backup env backup_path root)
  unfolding restore_backup
  restore-Keeps backup_path =
      search (keeps_rules, make_directory-Keeps, validate-Keeps, extract-Keeps) depth 30

-- Whatever the archive holds, and whether it returns or raises, `restore_backup` leaves the file
-- at every path that is not in the restored root as it was.
pub restore_backup-outside :
    (env : BackupEnv) (backup_path root path : Location) (d : Disk)
    → relative_to root path ≡ none
    → lookup path (restore_backup env backup_path root d).1.files ≡ lookup path d.files
restore_backup-outside env backup_path root path d outside =
    ((restore-Keeps env root path (lookup path d.files) outside backup_path).at d
      (record { held = refl })).held
