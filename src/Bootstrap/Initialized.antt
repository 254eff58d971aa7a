-- ===== src/Bootstrap/Initialized.antt =====
-- What the initialization of a data root leaves, and the store beside it.
use bms_gui.Prelude.{
  ◌≡◌, refl, sym, ap, ap₂, ◌∙◌, inl, inr, false, Option, none, some, Option-cases, List, [], ◌∷◌,
  ◌++◌, IsIn, subst, arith,
}
use bms_gui.Dict.{lookup}
use bms_gui.Dict.Laws.{lookup-insert}
use bms_gui.Result.{Result}
use bms_gui.Exec.{Exec, modify, ◌>>=◌}
use bms_gui.Store.{World}
use bms_gui.Backup.Files.{
  Content, Location, location_eq, location_eq_iff, location_key, Disk, users_json, roles_json,
  data_directories, make_directory, make_directories, write_missing, initialize_identity_files,
  initialize_data_root,
}
use bms_gui.Backup.Files.Laws.{
  location_eq_refl, location_eq-append, write_missing-elsewhere, make_directories-files,
}
use bms_gui.Bootstrap.{DataRoot, on_store, with_store}

-- What a file held, or its default.
abbrev pub or_default : Content → Option Content → Content
or_default text none = text
or_default text (some old) = old

-- The two identity files are there, as they were or with their defaults, no other file has
-- changed, and the directories are there beside those that were.
pub record IsInitialized (documents : Content × Content) (root : Location) (before after : Disk)
    : Type 0 where
  pub users :
      lookup (root ++ users_json) after.files
      ≡ some (or_default documents.0 (lookup (root ++ users_json) before.files))
  pub roles :
      lookup (root ++ roles_json) after.files
      ≡ some (or_default documents.1 (lookup (root ++ roles_json) before.files))
  pub others :
      (path : Location)
      → location_eq path (root ++ users_json) ≡ false
      → location_eq path (root ++ roles_json) ≡ false
      → lookup path after.files ≡ lookup path before.files
  pub made : (path : Location) → IsIn path data_directories → IsIn (root ++ path) after.directories
  pub left : (path : Location) → IsIn path before.directories → IsIn path after.directories

make_directories-left :
    (root path : Location) (paths : List Location) (d : Disk)
    → IsIn path d.directories
    → IsIn path (make_directories root paths d).directories
unfolding make_directories
make_directories-left root path [] d h = h
make_directories-left root path (p ∷ paths) d h =
    make_directories-left root path paths (make_directory (root ++ p) d) (inr h)

make_directories-made :
    (root path : Location) (paths : List Location) (d : Disk)
    → IsIn path paths
    → IsIn (root ++ path) (make_directories root paths d).directories
unfolding make_directories
make_directories-made root path [] d h = elim h [ ]
make_directories-made root path (p ∷ paths) d (inl same) =
    make_directories-left root (root ++ path) paths (make_directory (root ++ p) d)
      (inl (ap (λ q. root ++ q) same))
make_directories-made root path (p ∷ paths) d (inr there) =
    make_directories-made root path paths (make_directory (root ++ p) d) there

write_missing-directories :
    (path : Location) (text : Content) (d : Disk)
    → (write_missing path text d).directories ≡ d.directories
unfolding write_missing
write_missing-directories path text d = elim (Option-cases (lookup path d.files)) [
  | inl missing ↦ rw (missing, write_missing) refl
  | inr (old, found) ↦ rw (found, write_missing) refl
]

write_missing-here :
    (path : Location) (text : Content) (d : Disk)
    → lookup path (write_missing path text d).files ≡ some (or_default text (lookup path d.files))
unfolding write_missing
write_missing-here path text d = elim (Option-cases (lookup path d.files)) [
  | inl missing ↦
      rw (missing, write_missing) (rw (lookup-insert path path text d.files, location_eq_refl path))
  | inr (old, found) ↦ rw (found, write_missing) found
]

different : (p q : Location) → location_eq p q ≡ false → location_eq q p ≡ false
different p q h = ground (arith, location_eq_iff p q, location_eq_iff q p)

module _ (documents : Content × Content) (root : Location) where
  pub initialize_data_root-IsInitialized :
      (d : Disk) → IsInitialized documents root d (initialize_data_root documents root d)
  unfolding initialize_data_root initialize_identity_files
  initialize_data_root-IsInitialized d =
      let made = make_directories root data_directories d in
      let same = make_directories-files root data_directories d in
      let with_users = write_missing (root ++ users_json) documents.0 made in
      let dirs =
        write_missing-directories (root ++ roles_json) documents.1 with_users
        ∙ write_missing-directories (root ++ users_json) documents.0 made in
      record {
        users =
            write_missing-elsewhere (root ++ users_json) (root ++ roles_json) documents.1 with_users
              (location_eq-append root roles_json users_json)
            ∙ write_missing-here (root ++ users_json) documents.0 made
            ∙ ap (λ f. some (or_default documents.0 (lookup (root ++ users_json) f))) same;
        roles =
            write_missing-here (root ++ roles_json) documents.1 with_users
            ∙ ap (λ o. some (or_default documents.1 o))
                (write_missing-elsewhere (root ++ roles_json) (root ++ users_json) documents.0 made
                    (location_eq-append root users_json roles_json)
                  ∙ ap (lookup (root ++ roles_json)) same);
        others = λ path not_users not_roles.
            write_missing-elsewhere path (root ++ roles_json) documents.1 with_users
              (different path _ not_roles)
            ∙ write_missing-elsewhere path (root ++ users_json) documents.0 made
                (different path _ not_users)
            ∙ ap (lookup path) same;
        made = λ path there.
            subst (IsIn (root ++ path)) (sym dirs)
              (make_directories-made root path data_directories d there);
        left = λ path there.
            subst (IsIn path) (sym dirs) (make_directories-left root path data_directories d there);
      }

  -- A method that ran on the store of an initialized root.
  pub with_store-run :
      {A : Type 0} (action : Exec World A) (d : DataRoot) {result : Result A} {w : World}
      → action d.world ≡ (result, w)
      → with_store documents root action d
        ≡ (result, record { world = w; disk = initialize_data_root documents root d.disk })
  unfolding with_store on_store modify ◌>>=◌
  with_store-run {A} action d {result} {w} h =
      ap
        (λ (x : Result A × World).
          (x.0, set_world x.1 (initialize_data_root documents root d.disk)))
        h
    where
      set_world : World → Disk → DataRoot
      set_world w disk = record { world = w; disk = disk }

  pub with_store-eq :
      {A : Type 0} (action : Exec World A) (d : DataRoot) {result : Result A} {d' : DataRoot}
      → with_store documents root action d ≡ (result, d')
      → (action d.world ≡ (result, d'.world)) × IsInitialized documents root d.disk d'.disk
  with_store-eq {A} action d {result} {d'} h =
      let run = sym (with_store-run action d refl) ∙ h in
      let last = ap (λ (x : Result A × DataRoot). x.1) run in
      (
        ap₂ (λ (r : Result A) (w : World). (r, w)) (ap (λ (x : Result A × DataRoot). x.0) run)
            (ap (λ (x : DataRoot). x.world) last),
        subst (λ (x : DataRoot). IsInitialized documents root d.disk x.disk) last
            (initialize_data_root-IsInitialized d.disk),
      )
