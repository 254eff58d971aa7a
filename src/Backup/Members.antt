-- ===== src/Backup/Members.antt =====
-- What the members of an archive are, and what extracting them below another root gives.
use bms_gui.Prelude.{
  ◌≡◌, refl, sym, ap, ◌∙◌, subst, Bool, true, false, not, ◌||◌, Bool-cases, inl, inr, Option, none,
  some, List, [], ◌∷◌, ◌++◌, All, String, str_eq, arith, sort_by, All-sort_by,
}
use bms_gui.Dict.{Dict, lookup}
use bms_gui.Dict.Sorted.{lookup-sort_by}
use bms_gui.Backup.{is_excluded_from_backup, file_le, member_at, member_of, archived, members_of}
use bms_gui.Backup.Files.{
  Content, Location, location_eq, location_eq_iff, location_key, Disk, relative_to,
}
use bms_gui.Backup.Files.Laws.{relative_to-append, relative_to-some, location_eq_refl}
use bms_gui.Backup.Archive.{Member, regular}

-- The part of a path that is a name of a file or a directory.
abbrev pub is_plain : String → Bool
is_plain s = not (str_eq s "" || str_eq s "." || str_eq s "..")

-- Each path has one file, and is resolved.
pub record IsTree (files : Dict Location Content) : Type 0 where
  pub entries : All (λ f. lookup f.0 files ≡ some f.1) files
  pub plain : All (λ f. All (λ s. is_plain s ≡ true) f.0) files

-- The path of a file that is not the root itself.
abbrev pub IsBelow : Location → Type 0
IsBelow [] = ⊥
IsBelow (s ∷ name) = Unit

-- A member that is the copy of a file.
pub record IsCopy (root : Location) (files : Dict Location Content) (member : Member) : Type 0 where
  pub copied : lookup (root ++ member.name) files ≡ some member.content
  pub included : is_excluded_from_backup member.name ≡ false
  pub kind : member.kind ≡ regular
  pub below : IsBelow member.name
  pub plain : All (λ s. is_plain s ≡ true) member.name

pub data Copied (root : Location) (files : Dict Location Content) : Option Member → Type 0 where
  nothing : Copied root files none
  copy : (member : Member) → IsCopy root files member → Copied root files (some member)

All-append-right : (P : String → Type 0) (xs ys : List String) → All P (xs ++ ys) → All P ys
All-append-right P [] ys all = all
All-append-right P (x ∷ xs) ys all = All-append-right P xs ys all.1

module _ (root backup_path : Location) where
  member_at-Copied :
      (files : Dict Location Content) (path : Location) (text : Content) (place : Option Location)
      → relative_to root path ≡ place
      → lookup path files ≡ some text
      → All (λ s. is_plain s ≡ true) path
      → Copied root files (member_at backup_path path text place)
  unfolding member_at
  member_at-Copied files path text none below found plain = nothing
  member_at-Copied files path text (some []) below found plain = nothing
  member_at-Copied files path text (some (s ∷ rest)) below found plain =
      elim (Bool-cases (location_eq path backup_path || is_excluded_from_backup (s ∷ rest))) [
        | inl skipped ↦ rw skipped nothing
        | inr taken ↦
            let whole = relative_to-some root path below in
            rw taken (
              copy _ (record {
                copied = subst (λ p. lookup p files ≡ some text) whole found;
                included = or-right _ _ taken;
                kind = refl;
                below = tt;
                plain = All-append-right _ root (s ∷ rest) (subst (All _) whole plain);
              }))
      ]
    where
      or-right : (a b : Bool) → (a || b) ≡ false → b ≡ false
      or-right a b h = ground arith

  archived-Copied :
      (files rows : Dict Location Content)
      → All (λ f. lookup f.0 files ≡ some f.1) rows
      → All (λ f. All (λ s. is_plain s ≡ true) f.0) rows
      → All (IsCopy root files) (archived root backup_path rows)
  unfolding archived member_of
  archived-Copied files [] found plain = tt
  archived-Copied files ((path, text) ∷ rows) found plain =
      add _ _ (member_at-Copied files path text _ refl found.0 plain.0)
        (archived-Copied files rows found.1 plain.1)
    where
      add :
          (m : Option Member) (ms : List Member)
          → Copied root files m
          → All (IsCopy root files) ms
          → All (IsCopy root files) (elim m [ none ↦ ms | some member ↦ member ∷ ms ])
      add none ms c all = all
      add (some member) ms (copy _ c) all = (c, all)

  -- The members are copies of the files.
  pub members_of-IsCopy :
      (d : Disk) → IsTree d.files → All (IsCopy root d.files) (members_of root backup_path d)
  unfolding members_of
  members_of-IsCopy d t =
      archived-Copied d.files (sort_by file_le d.files) (All-sort_by file_le _ d.files t.entries)
        (All-sort_by file_le _ d.files t.plain)

-- A member has the name.
abbrev pub has_name : Location → List Member → Bool
has_name name [] = false
has_name name (member ∷ members) = location_eq member.name name || has_name name members

module _ (root backup_path name : Location) (below : IsBelow name)
    (included : is_excluded_from_backup name ≡ false)
    (kept : location_eq (root ++ name) backup_path ≡ false) where
  member_of-kept :
      (text : Content)
      → member_of root backup_path (root ++ name, text)
        ≡ some (record { name = name; kind = regular; content = text })
  unfolding member_of member_at
  member_of-kept text =
      ap (member_at backup_path (root ++ name) text) (relative_to-append root name)
      ∙ taken name below included
    where
      taken :
          (n : Location)
          → IsBelow n
          → is_excluded_from_backup n ≡ false
          → member_at backup_path (root ++ name) text (some n)
            ≡ some (record { name = n; kind = regular; content = text })
      taken [] b i = absurd b
      taken (s ∷ rest) b i = rw (kept, i)

  -- A file that is not among the members is not there.
  archived-has_name :
      (rows : Dict Location Content)
      → has_name name (archived root backup_path rows) ≡ false
      → lookup (root ++ name) rows ≡ none
  unfolding archived lookup
  archived-has_name [] h = refl
  archived-has_name ((path, text) ∷ rows) h = elim (Bool-cases (location_eq path (root ++ name))) [
    | inl same ↦
        let clash = is_there _ (
          ap (λ m. has_name name (add m)) (sym (member_of-kept text))
          ∙ ap (λ p. has_name name (add (member_of root backup_path (p, text))))
              (sym ((location_eq_iff path (root ++ name)).0 same))
          ∙ h) in
        cc
    | inr other ↦ rw other (archived-has_name rows (dropped _ h))
  ]
    where
      add : Option Member → List Member
      add m = elim m [
        | none ↦ archived root backup_path rows
        | some member ↦ member ∷ archived root backup_path rows
      ]

      is_there : (rest : Bool) → (location_eq name name || rest) ≡ false → true ≡ false
      is_there rest e = sym (ap (λ b. b || rest) (location_eq_refl name)) ∙ e

      dropped :
          (m : Option Member)
          → has_name name (add m) ≡ false
          → has_name name (archived root backup_path rows) ≡ false
      dropped none e = e
      dropped (some member) e = ground arith

  pub members_of-has_name :
      (d : Disk)
      → has_name name (members_of root backup_path d) ≡ false
      → lookup (root ++ name) d.files ≡ none
  unfolding members_of
  members_of-has_name d h =
      lookup-sort_by file_le (root ++ name) d.files (archived-has_name (sort_by file_le d.files) h)
