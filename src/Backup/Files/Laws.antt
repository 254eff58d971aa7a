-- ===== src/Backup/Files/Laws.antt =====
-- Paths below a root, and what writing a file changes.
use bms_gui.Prelude.{
  ◌≡◌, refl, sym, ap, ap₂, if_true, if_false, ◌∙◌, true, false, Bool-cases, inl, inr, none, some,
  none-some, List, [], ◌∷◌, ◌++◌, str_eq, str_eq_refl, eq_iff, arith, Option-cases,
}
use bms_gui.Dict.{lookup}
use bms_gui.Dict.Laws.{lookup-insert}
use bms_gui.Backup.Files.{
  Content, Location, location_eq, location_eq_iff, location_key, Disk, relative_to, write_file,
  write_missing, make_directories, data_directories, initialize_identity_files,
  initialize_data_root, users_json, roles_json,
}

pub relative_to-append : (root path : Location) → relative_to root (root ++ path) ≡ some path
unfolding relative_to
relative_to-append [] path = refl
relative_to-append (s ∷ root) path = rw (str_eq_refl s) (relative_to-append root path)

-- A path below a root is the root and the rest.
pub relative_to-some :
    (root path : Location) {rest : Location}
    → relative_to root path ≡ some rest
    → path ≡ root ++ rest
unfolding relative_to
relative_to-some [] path h = ground arith
relative_to-some (s ∷ root) [] h = absurd (none-some h)
relative_to-some (s ∷ root) (t ∷ path) h = elim (Bool-cases (str_eq s t)) [
  | inl same ↦
      ap₂ (λ r rest. r ∷ rest) (sym ((eq_iff s t).0 same))
        (relative_to-some root path (if_true (str_eq s t) _ _ same h))
  | inr other ↦ absurd (none-some (if_false (str_eq s t) _ _ other h))
]

pub location_eq_refl : (p : Location) → location_eq p p ≡ true
location_eq_refl p = (location_eq_iff p p).1 refl

-- Another path.
pub location_ne :
    (root p q : Location) {rest : Location}
    → relative_to root p ≡ none
    → relative_to root q ≡ some rest
    → location_eq q p ≡ false
location_ne root p q h k = elim (Bool-cases (location_eq q p)) [
  | inl same ↦
      absurd (none-some (sym h ∙ ap (relative_to root) (sym ((location_eq_iff q p).0 same)) ∙ k))
  | inr other ↦ other
]

pub write_file-elsewhere :
    (p q : Location) (text : Content) (d : Disk)
    → location_eq q p ≡ false
    → lookup p (write_file q text d).files ≡ lookup p d.files
write_file-elsewhere p q text d other = rw (lookup-insert q p text d.files, other)

pub write_missing-elsewhere :
    (p q : Location) (text : Content) (d : Disk)
    → location_eq q p ≡ false
    → lookup p (write_missing q text d).files ≡ lookup p d.files
unfolding write_missing
write_missing-elsewhere p q text d other = elim (Option-cases (lookup q d.files)) [
  | inl missing ↦ rw (missing, write_missing) (write_file-elsewhere p q text d other)
  | inr (old, found) ↦ rw (found, write_missing)
]

pub write_missing-found :
    (q : Location) (text : Content) (d : Disk) {old : Content}
    → lookup q d.files ≡ some old
    → write_missing q text d ≡ d
unfolding write_missing
write_missing-found q text d h = rw (h, write_missing)

pub make_directories-files :
    (root : Location) (paths : List Location) (d : Disk)
    → (make_directories root paths d).files ≡ d.files
unfolding make_directories
make_directories-files root [] d = refl
make_directories-files root (path ∷ paths) d = make_directories-files root paths _

-- The files outside of the root.
pub initialize_data_root-elsewhere :
    (documents : Content × Content) (root p : Location) (d : Disk)
    → relative_to root p ≡ none
    → lookup p (initialize_data_root documents root d).files ≡ lookup p d.files
unfolding initialize_data_root initialize_identity_files
initialize_data_root-elsewhere documents root p d h =
    write_missing-elsewhere p _ _ _ (location_ne root p _ h (relative_to-append root roles_json))
    ∙ write_missing-elsewhere p _ _ _ (location_ne root p _ h (relative_to-append root users_json))
    ∙ ap (lookup p) (make_directories-files root data_directories d)

pub location_eq-append :
    (root p q : Location) → location_eq (root ++ p) (root ++ q) ≡ location_eq p q
location_eq-append [] p q = refl
location_eq-append (s ∷ root) p q = rw (str_eq_refl s) (location_eq-append root p q)
