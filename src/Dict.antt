-- ===== src/Dict.antt =====
-- Python's dictionaries, in insertion order, over keys with a lawful `==`; sets of keys as lists.
pub mod Laws
pub mod Keys
pub mod Order
pub mod Agree
pub mod Sorted
use bms_gui.Prelude.{
  ◌≡◌, ◌↔◌, Bool, true, false, ◌||◌, Option, none, some, List, [], ◌∷◌, map, if◌then◌else◌,
}

-- Equality of keys.
pub record Eq {ℓ} (K : Type ℓ) : Type ℓ where
  pub beq : K → K → Bool
  pub beq_iff : (a b : K) → (beq a b ≡ true) ↔ (a ≡ b)

abbrev pub Dict {ℓ κ} : Type ℓ → Type κ → Type (ℓ ⊔ κ)
Dict K V = List (K × V)

module _ {ℓ κ} {K : Type ℓ} {V : Type κ} ⦃e : Eq K⦄ where
  -- `d.get(key)`
  unfoldable pub lookup : K → Dict K V → Option V
  lookup key [] = none
  lookup key ((k, v) ∷ d) = if e.beq k key then some v else lookup key d

  -- `d[key] = value`: the key keeps its place.
  unfoldable pub insert : K → V → Dict K V → Dict K V
  insert key value [] = (key, value) ∷ []
  insert key value ((k, v) ∷ d) =
      if e.beq k key then (k, value) ∷ d else (k, v) ∷ insert key value d

  -- `d.get(key, default)`
  unfoldable pub lookup_or : K → V → Dict K V → V
  unfolding lookup
  lookup_or key default d = elim (lookup key d) [ none ↦ default | some v ↦ v ]

-- `key in s`
unfoldable pub contains {ℓ} : {K : Type ℓ} ⦃e : Eq K⦄ → K → List K → Bool
contains key [] = false
contains ⦃e⦄ key (k ∷ s) = e.beq k key || contains key s

-- `d.values()`
abbrev pub values {ℓ κ} : {K : Type ℓ} {V : Type κ} → Dict K V → List V
values d = map (λ p. p.1) d
