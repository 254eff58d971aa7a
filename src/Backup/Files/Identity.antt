-- ===== src/Backup/Files/Identity.antt =====
-- The identity files of a data root that was initialized.
use bms_gui.Prelude.{◌≡◌, ap, ◌∙◌, inl, inr, some, ◌++◌, arith}
use bms_gui.Dict.{lookup}
use bms_gui.Dict.Laws.{lookup-insert}
use bms_gui.Dict.Keys.{string_key}
use bms_gui.Backup.Files.{
  Content, Location, location_key, Disk, write_missing, initialize_identity_files,
  initialize_data_root, users_json, roles_json, make_directories, data_directories,
}
use bms_gui.Backup.Files.Laws.{
  location_eq_refl, location_eq-append, write_missing-elsewhere, write_missing-found,
  make_directories-files,
}

-- The identity files of an initialized root.
module _ (documents : Content × Content) (root : Location) (d : Disk) where
  write_missing-there :
      (q : Location) (text : Content) (d : Disk)
      → (old : Content) × (lookup q (write_missing q text d).files ≡ some old)
  unfolding write_missing
  write_missing-there q text d = elim (bms_gui.Prelude.Option-cases (lookup q d.files)) [
    | inl missing ↦ (
      text,
      rw (missing, write_missing) (rw (lookup-insert q q text d.files, location_eq_refl q)),
    )
    | inr (old, found) ↦ (old, rw (found, write_missing) found)
  ]

  pub users_json-there :
      (old : Content) × (lookup (root ++ users_json) (initialize_data_root documents root d).files
        ≡ some old)
  unfolding initialize_data_root initialize_identity_files
  users_json-there =
      let (old, found) = write_missing-there (root ++ users_json) documents.0 _ in
      (
        old,
        write_missing-elsewhere (root ++ users_json) (root ++ roles_json) documents.1 _
              (location_eq-append root roles_json users_json)
            ∙ found,
      )

  pub roles_json-there :
      (old : Content) × (lookup (root ++ roles_json) (initialize_data_root documents root d).files
        ≡ some old)
  unfolding initialize_data_root initialize_identity_files
  roles_json-there = write_missing-there (root ++ roles_json) documents.1 _

  -- Where they are there, no file is written.
  pub initialize_data_root-again :
      {users roles : Content}
      → lookup (root ++ users_json) d.files ≡ some users
      → lookup (root ++ roles_json) d.files ≡ some roles
      → (initialize_data_root documents root d).files ≡ d.files
  unfolding initialize_data_root initialize_identity_files
  initialize_data_root-again h k =
      let made = make_directories root data_directories d in
      let same = make_directories-files root data_directories d in
      ap (λ (x : Disk). (write_missing (root ++ roles_json) documents.1 x).files)
        (write_missing-found (root ++ users_json) documents.0 made
          (ap (lookup (root ++ users_json)) same ∙ h))
      ∙ ap (λ (x : Disk). x.files)
          (write_missing-found (root ++ roles_json) documents.1 made
            (ap (lookup (root ++ roles_json)) same ∙ k))
      ∙ same
