-- ===== src/Backup/Extracted.antt =====
-- What extracting members with plain names gives.
use bms_gui.Prelude.{
  ◌≡◌, refl, sym, ap, ◌∙◌, Bool, true, false, not, ◌||◌, Bool-cases, inl, inr, some, List, [], ◌∷◌,
  ◌++◌, All, String, str_eq, arith, if◌then◌else◌,
}
use mathlib.Core.List.{append_assoc, append-nil}
use bms_gui.Dict.{lookup}
use bms_gui.Dict.Laws.{lookup-insert}
use bms_gui.Fields.{◌&◌, join}
use bms_gui.Result.{ok, fail_if, backup_error, check_each}
use bms_gui.Exec.{for_each, ◌>>=◌}
use bms_gui.Backup.{BackupEnv, extract}
use bms_gui.Backup.Files.{
  Content, Location, location_eq, location_key, Disk, relative_to, write_file,
}
use bms_gui.Backup.Files.Laws.{relative_to-append, location_eq-append}
use bms_gui.Backup.Archive.{
  Member, regular, step, walk, is_absolute, target_of, is_found, check_member, extract_at,
  extract_member,
}
use bms_gui.Backup.Members.{is_plain, IsBelow, has_name}

-- A member whose name needs no resolving.
pub record IsPlainFile (member : Member) : Type 0 where
  pub kind : member.kind ≡ regular
  pub below : IsBelow member.name
  pub plain : All (λ s. is_plain s ≡ true) member.name

step-plain : (path : Location) (s : String) → is_plain s ≡ true → step path s ≡ path ++ s ∷ []
unfolding step
step-plain path s h = ground arith

pub walk-plain :
    (path parts : Location) → All (λ s. is_plain s ≡ true) parts → walk path parts ≡ path ++ parts
unfolding walk
walk-plain path [] all = sym (append-nil path)
walk-plain path (s ∷ parts) all =
    ap (λ p. walk p parts) (step-plain path s all.0)
    ∙ walk-plain (path ++ s ∷ []) parts all.1
    ∙ append_assoc path (s ∷ []) parts

target_of-plain :
    (root name : Location) → All (λ s. is_plain s ≡ true) name → target_of root name ≡ root ++ name
unfolding target_of
target_of-plain root name all =
    ap (λ b. if b then walk [] name else walk root name) (relative name all)
    ∙ walk-plain root name all
  where
    plain-first : (s : String) → is_plain s ≡ true → str_eq s "" ≡ false
    plain-first s h = ground arith

    relative : (n : Location) → All (λ s. is_plain s ≡ true) n → is_absolute n ≡ false
    relative [] h = refl
    relative (s ∷ []) h = refl
    relative (s ∷ t ∷ n) h = plain-first s h.0

pub check_member-plain :
    (root : Location) (member : Member) → IsPlainFile member → check_member root member ≡ ok tt
unfolding check_member
check_member-plain root member p =
    rw (p.kind, target_of-plain root member.name p.plain)
      (ap
        (λ o.
          fail_if (not (is_found o))
            (backup_error ("backup member escapes restore root: " & join "/" member.name)))
        (relative_to-append root member.name))

pub check_each-plain :
    (root : Location) (members : List Member)
    → All IsPlainFile members
    → check_each members (check_member root) ≡ ok tt
unfolding check_each
check_each-plain root [] all = refl
check_each-plain root (m ∷ members) all =
    rw (check_member-plain root m all.0) (check_each-plain root members all.1)

-- The members, written one after another.
abbrev pub write_all : Location → List Member → Disk → Disk
write_all root [] d = d
write_all root (m ∷ members) d = write_all root members (write_file (root ++ m.name) m.content d)

extract_member-plain :
    (root : Location) (member : Member) (d : Disk)
    → IsPlainFile member
    → extract_member root member d ≡ ok (write_file (root ++ member.name) member.content d)
unfolding extract_member extract_at
extract_member-plain root member d p =
    ap (λ q. extract_at q (relative_to root q) member d) (walk-plain root member.name p.plain)
    ∙ ap (λ o. extract_at (root ++ member.name) o member d) (relative_to-append root member.name)
    ∙ written member.name p.below
  where
    written :
        (n : Location)
        → IsBelow n
        → extract_at (root ++ member.name) (some n) member d
          ≡ ok (write_file (root ++ member.name) member.content d)
    written [] b = absurd b
    written (s ∷ rest) b = rw p.kind

pub extract-plain :
    (env : BackupEnv) (root : Location) (members : List Member) (d : Disk)
    → All IsPlainFile members
    → for_each members (extract env root) d ≡ (ok tt, write_all root members d)
unfolding for_each ◌>>=◌ extract
extract-plain env root [] d all = refl
extract-plain env root (m ∷ members) d all =
    rw (extract_member-plain root m d all.0, extract) (extract-plain env root members _ all.1)

module _ (root name : Location) where
  pub lookup-written :
      (m : Member) (d : Disk)
      → lookup (root ++ name) (write_file (root ++ m.name) m.content d).files
        ≡ (if location_eq m.name name then some m.content else lookup (root ++ name) d.files)
  lookup-written m d =
      lookup-insert (root ++ m.name) (root ++ name) m.content d.files
      ∙ ap (λ b. if b then some m.content else lookup (root ++ name) d.files)
          (location_eq-append root m.name name)

  -- A name that no member has.
  pub write_all-elsewhere :
      (members : List Member) (d : Disk)
      → has_name name members ≡ false
      → lookup (root ++ name) (write_all root members d).files ≡ lookup (root ++ name) d.files
  write_all-elsewhere [] d h = refl
  write_all-elsewhere (m ∷ members) d h =
      write_all-elsewhere members _ (right _ _ h)
      ∙ lookup-written m d
      ∙ ap (λ b. if b then some m.content else lookup (root ++ name) d.files) (left _ _ h)
    where
      left : (a b : Bool) → (a || b) ≡ false → a ≡ false
      left a b e = ground arith

      right : (a b : Bool) → (a || b) ≡ false → b ≡ false
      right a b e = ground arith

  -- A name whose members all hold one text, if they are not all elsewhere.
  pub write_all-found :
      (text : Content) (members : List Member) (d : Disk)
      → All (λ m. location_eq m.name name ≡ true → m.content ≡ text) members
      → has_name name members ≡ true
      → lookup (root ++ name) (write_all root members d).files ≡ some text
  write_all-found text [] d same h = cc
  write_all-found text (m ∷ members) d same h = elim (Bool-cases (has_name name members)) [
    | inl later ↦ write_all-found text members _ same.1 later
    | inr last ↦
        let here : location_eq m.name name ≡ true = or-left _ _ h last in
        write_all-elsewhere members _ last
        ∙ lookup-written m d
        ∙ ap (λ b. if b then some m.content else lookup (root ++ name) d.files) here
        ∙ ap some (same.0 here)
  ]
    where
      or-left : (a b : Bool) → (a || b) ≡ true → b ≡ false → a ≡ true
      or-left a b e k = ground arith
