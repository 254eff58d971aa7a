-- ===== src/Prelude/Sorting.antt =====
-- Python's `sorted` with a key: a stable sort, and what it gives.
use mathlib.Core.Path.{◌≡◌}
use mathlib.Core.Bool.{Bool, true, false}
use mathlib.Core.Logic.{inl, inr}
use mathlib.Core.List.{List, [], ◌∷◌, Perm}
use mathlib.Core.List.Perm
use bms_gui.Prelude.Tests.{if◌then◌else◌, Bool-cases}
use bms_gui.Prelude.Lists.{All}

module _ {ℓ} {A : Type ℓ} (le : A → A → Bool) where
  unfoldable pub insert_by : A → List A → List A
  insert_by x [] = x ∷ []
  insert_by x (y ∷ ys) = if le x y then x ∷ y ∷ ys else y ∷ insert_by x ys

  -- Rows that compare equal keep their order.
  unfoldable pub sort_by : List A → List A
  sort_by [] = []
  sort_by (x ∷ xs) = insert_by x (sort_by xs)

  insert_by-perm : (x : A) (xs : List A) → Perm (insert_by x xs) (x ∷ xs)
  unfolding insert_by
  insert_by-perm x [] = Perm.rfl
  insert_by-perm x (y ∷ ys) = elim (Bool-cases (le x y)) [
    | inl before ↦ rw before Perm.rfl
    | inr after ↦ rw after (Perm.trans (Perm.cons y (insert_by-perm x ys)) (Perm.swap x y ys))
  ]

  pub sort_by-perm : (xs : List A) → Perm (sort_by xs) xs
  unfolding sort_by
  sort_by-perm [] = Perm.rfl
  sort_by-perm (x ∷ xs) = Perm.trans (insert_by-perm x (sort_by xs)) (Perm.cons x (sort_by-perm xs))

  All-insert_by : (P : A → Type 0) (x : A) (xs : List A) → P x → All P xs → All P (insert_by x xs)
  unfolding insert_by
  All-insert_by P x [] h all = (h, tt)
  All-insert_by P x (y ∷ ys) h all = elim (Bool-cases (le x y)) [
    | inl before ↦ rw before (h, all)
    | inr after ↦ rw after (all.0, All-insert_by P x ys h all.1)
  ]

  pub All-sort_by : (P : A → Type 0) (xs : List A) → All P xs → All P (sort_by xs)
  unfolding sort_by
  All-sort_by P [] all = tt
  All-sort_by P (x ∷ xs) all = All-insert_by P x (sort_by xs) all.0 (All-sort_by P xs all.1)

  -- `x` is at most the first of the rows.
  abbrev pub Below : A → List A → Type 0
  Below x [] = Unit
  Below x (y ∷ ys) = le x y ≡ true

  -- Every row is at most the next one.
  abbrev pub IsAscending : List A → Type 0
  IsAscending [] = Unit
  IsAscending (x ∷ xs) = Below x xs × IsAscending xs

  Below-insert_by : (y x : A) (xs : List A) → le y x ≡ true → Below y xs → Below y (insert_by x xs)
  unfolding insert_by
  Below-insert_by y x [] first h = first
  Below-insert_by y x (z ∷ zs) first h = elim (Bool-cases (le x z)) [
    | inl before ↦ rw before first
    | inr after ↦ rw after h
  ]

  insert_by-IsAscending :
      ((a b : A) → le a b ≡ false → le b a ≡ true)
      → (x : A) (xs : List A) → IsAscending xs
      → IsAscending (insert_by x xs)
  unfolding insert_by
  insert_by-IsAscending total x [] h = (tt, tt)
  insert_by-IsAscending total x (y ∷ ys) h = elim (Bool-cases (le x y)) [
    | inl before ↦ rw before (before, h)
    | inr after ↦
        rw after
          (Below-insert_by y x ys (total x y after) h.0, insert_by-IsAscending total x ys h.1)
  ]

  pub sort_by-IsAscending :
      ((a b : A) → le a b ≡ false → le b a ≡ true) → (xs : List A) → IsAscending (sort_by xs)
  unfolding sort_by
  sort_by-IsAscending total [] = tt
  sort_by-IsAscending total (x ∷ xs) =
      insert_by-IsAscending total x (sort_by xs) (sort_by-IsAscending total xs)
