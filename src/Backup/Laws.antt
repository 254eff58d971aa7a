-- ===== src/Backup/Laws.antt =====
-- The steps of a restoration, each on what a backup has written.
use bms_gui.Prelude.{
  ◌≡◌, refl, sym, ap, ◌∙◌, subst, Bool, true, false, ◌||◌, Bool-cases, inl, inr, Option, none, some,
  none-some, List, [], ◌∷◌, ◌++◌, All, String, select, ℤ, eqb_ℤ_iff, arith, map,
}
use bms_gui.Dict.{Dict, lookup}
use bms_gui.Dict.Keys.{string_key}
use bms_gui.Result as R
use bms_gui.Result.{ok, fold_each}
use bms_gui.Backup.{BackupEnv, is_excluded_from_backup, members_of, count_file, count_files}
use bms_gui.Backup.Files.{
  Content, Location, location_eq, location_eq_iff, location_key, Disk, relative_to, is_entry,
  has_entry, paths_of, is_occupied, durable_files,
}
use bms_gui.Backup.Files.Laws.{relative_to-append}
use bms_gui.Backup.Archive.{Member, is_manifest, manifest_name, agree_on, counts_eq, option_eq}
use bms_gui.Backup.Members.{
  IsTree, IsCopy, IsBelow, has_name, members_of-IsCopy, members_of-has_name,
}
use bms_gui.Backup.Extracted.{write_all, write_all-elsewhere, write_all-found}

-- A name among copies is the name of a file.
named-copy :
    (root : Location) (files : Dict Location Content) (name : Location) (members : List Member)
    → All (IsCopy root files) members
    → has_name name members ≡ true
    → (text : Content) × (lookup (root ++ name) files ≡ some text)
named-copy root files name [] all h = cc
named-copy root files name (m ∷ members) all h = elim (Bool-cases (location_eq m.name name)) [
  | inl same ↦ (
    m.content,
    subst (λ n. lookup (root ++ n) files ≡ some m.content) ((location_eq_iff m.name name).0 same)
        all.0.copied,
  )
  | inr other ↦ named-copy root files name members all.1 (later _ _ h other)
]
  where
    later : (a b : Bool) → (a || b) ≡ true → a ≡ false → b ≡ true
    later a b e k = ground arith

some-eq : {A : Type 0} {a b : A} → some a ≡ some b → a ≡ b
some-eq e = ground arith

same_text :
    (root : Location) (files : Dict Location Content) (name : Location) (text : Content)
    (members : List Member)
    → lookup (root ++ name) files ≡ some text
    → All (IsCopy root files) members
    → All (λ m. location_eq m.name name ≡ true → m.content ≡ text) members
same_text root files name text [] found all = tt
same_text root files name text (m ∷ members) found all = (
  λ same. some-eq (
      sym all.0.copied
      ∙ ap (λ n. lookup (root ++ n) files) ((location_eq_iff m.name name).0 same)
      ∙ found),
  same_text root files name text members found all.1,
)

-- Below the restored root lies what lay below the root.
module _ (root backup_path : Location) (d : Disk) (tree : IsTree d.files)
    (unwritten : lookup backup_path d.files ≡ none) (manifest : Member)
    (named : manifest.name ≡ manifest_name) where
  pub restored-lookup :
      (root' name : Location) (d' : Disk)
      → IsBelow name
      → is_excluded_from_backup name ≡ false
      → location_eq manifest_name name ≡ false
      → lookup (root' ++ name) d'.files ≡ none
      → lookup (root' ++ name) (write_all root' (manifest ∷ members_of root backup_path d) d').files
        ≡ lookup (root ++ name) d.files
  restored-lookup root' name d' below included other missing =
      elim (Bool-cases (has_name name members)) [
        | inl here ↦
            let (text, found) = named-copy root d.files name members copies here in
            write_all-found root' name text (manifest ∷ members) d'
              (
                (λ same. clash (sym same ∙ not_manifest)),
                same_text root d.files name text members found copies,
              )
              (ap (λ b. b || has_name name members) not_manifest ∙ here)
            ∙ sym found
        | inr absent ↦
            write_all-elsewhere root' name (manifest ∷ members) d'
              (ap (λ b. b || has_name name members) not_manifest ∙ absent)
            ∙ missing
            ∙ sym (gone absent)
      ]
    where
      members : List Member
      members = members_of root backup_path d

      copies : All (IsCopy root d.files) members
      copies = members_of-IsCopy root backup_path d tree

      not_manifest : location_eq manifest.name name ≡ false
      not_manifest = ap (λ n. location_eq n name) named ∙ other

      clash : {A : Type 0} → true ≡ false → A
      clash e = cc

      gone : has_name name members ≡ false → lookup (root ++ name) d.files ≡ none
      gone absent = elim (Bool-cases (location_eq (root ++ name) backup_path)) [
        | inl written ↦
            ap (λ p. lookup p d.files) ((location_eq_iff (root ++ name) backup_path).0 written)
            ∙ unwritten
        | inr kept ↦ members_of-has_name root backup_path name below included kept d absent
      ]

  -- No file has the name of the manifest.
  pub no_name :
      lookup (root ++ manifest_name) d.files ≡ none
      → has_name manifest_name (members_of root backup_path d) ≡ false
  no_name missing = elim (Bool-cases (has_name manifest_name (members_of root backup_path d))) [
    | inl there ↦
        let (text, found) =
          named-copy root d.files manifest_name _ (members_of-IsCopy root backup_path d tree)
            there in
        absurd (none-some (sym missing ∙ found))
    | inr absent ↦ absent
  ]

  -- No other member is a manifest.
  pub no_manifests :
      lookup (root ++ manifest_name) d.files ≡ none
      → select is_manifest (members_of root backup_path d) ≡ []
  no_manifests missing =
      none_of (members_of root backup_path d) (members_of-IsCopy root backup_path d tree)
    where
      clash :
          {A : Type 0} (m : Member)
          → IsCopy root d.files m
          → location_eq m.name manifest_name ≡ true
          → A
      clash m c same = absurd (
          none-some (
            sym missing
            ∙ ap (λ n. lookup (root ++ n) d.files)
                (sym ((location_eq_iff m.name manifest_name).0 same))
            ∙ c.copied))

      other_name : (m : Member) → IsCopy root d.files m → is_manifest m ≡ false
      other_name m c = elim (Bool-cases (location_eq m.name manifest_name)) [
        | inl same ↦ clash m c same
        | inr other ↦ rw other refl
      ]

      none_of : (ms : List Member) → All (IsCopy root d.files) ms → select is_manifest ms ≡ []
      none_of [] all = refl
      none_of (m ∷ ms) all = rw (other_name m all.0) (none_of ms all.1)

-- A root without entries.
pub unoccupied-lookup :
    (root name : Location) (d : Disk)
    → is_occupied root d ≡ false
    → IsBelow name
    → lookup (root ++ name) d.files ≡ none
unfolding is_occupied lookup
unoccupied-lookup root name d h below = absent d.files (right _ _ h)
  where
    right : (a b : Bool) → (a || b) ≡ false → b ≡ false
    right a b e = ground arith

    entry : (n : Location) → IsBelow n → is_entry (some n) ≡ true
    entry [] b = absurd b
    entry (s ∷ n) b = refl

    left : (a b : Bool) → (a || b) ≡ false → a ≡ false
    left a b e = ground arith

    absent :
        (files : Dict Location Content)
        → has_entry root (paths_of files) ≡ false
        → lookup (root ++ name) files ≡ none
    absent [] e = refl
    absent ((path, text) ∷ files) e = elim (Bool-cases (location_eq path (root ++ name))) [
      | inl same ↦
          let bad : true ≡ false =
            sym (entry name below)
            ∙ ap is_entry (sym (relative_to-append root name))
            ∙ ap (λ p. is_entry (relative_to root p))
                (sym ((location_eq_iff path (root ++ name)).0 same))
            ∙ left _ _ e in
          cc
      | inr other ↦ rw other (absent files (right _ _ e))
    ]

-- The counts depend on the durable files alone.
pub count_files-same :
    (env : BackupEnv) (root root' : Location) (d d' : Disk)
    → All (λ f. lookup (root' ++ f.1) d'.files ≡ lookup (root ++ f.1) d.files) durable_files
    → count_files env root' d' ≡ count_files env root d
unfolding count_files count_file fold_each
count_files-same env root root' d d' all =
    ap (λ r. R.◌>>=◌ r λ counts. ok (bms_gui.Dict.Keys.sorted_items counts))
      (folds durable_files [] all)
  where
    counted :
        (counts : Dict String ℤ) (f : String × Location)
        → lookup (root' ++ f.1) d'.files ≡ lookup (root ++ f.1) d.files
        → count_file env root' d'.files counts f ≡ count_file env root d.files counts f
    counted counts f e = rw (e, count_file)

    folds :
        (fs : List (String × Location)) (counts : Dict String ℤ)
        → All (λ f. lookup (root' ++ f.1) d'.files ≡ lookup (root ++ f.1) d.files) fs
        → fold_each (count_file env root' d'.files) counts fs
          ≡ fold_each (count_file env root d.files) counts fs
    folds [] counts es = refl
    folds (f ∷ fs) counts es =
        rw (counted counts f es.0)
          (R.bind_congr (count_file env root d.files counts f) _ _ (λ next. folds fs next es.1))

-- Dictionaries equal themselves.
pub counts_eq_refl : (a : Dict String ℤ) → counts_eq a a ≡ true
unfolding counts_eq
counts_eq_refl a = rw (agreed (map (λ c. c.0) a))
  where
    same : (o : Option ℤ) → option_eq o o ≡ true
    same none = refl
    same (some n) = (eqb_ℤ_iff n n).1 refl

    agreed : (names : List String) → agree_on a a names ≡ true
    agreed [] = refl
    agreed (name ∷ names) = rw (same (lookup name a), agreed names)
