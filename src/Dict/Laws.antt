-- ===== src/Dict/Laws.antt =====
-- What an insertion changes.
use bms_gui.Prelude.{◌≡◌, refl, ap, none, some, [], ◌∷◌, arith, if◌then◌else◌}
use bms_gui.Dict.{Eq, Dict, lookup, lookup_or, insert}

module _ {ℓ κ} {K : Type ℓ} {V : Type κ} ⦃e : Eq K⦄ where
  pub lookup-insert :
      (k j : K) (v : V) (d : Dict K V)
      → lookup j (insert k v d) ≡ (if e.beq k j then some v else lookup j d)
  unfolding lookup insert
  lookup-insert k j v [] = refl
  lookup-insert k j v ((i, w) ∷ d) =
      ground (arith, e.beq_iff k j, e.beq_iff i k, e.beq_iff i j, lookup-insert k j v d)

  pub lookup_or-insert :
      (k j : K) (v default : V) (d : Dict K V)
      → lookup_or j default (insert k v d) ≡ (if e.beq k j then v else lookup_or j default d)
  unfolding lookup_or
  lookup_or-insert k j v default d = ground (arith, lookup-insert k j v d)

  pub lookup_or-some :
      (key : K) (default v : V) (d : Dict K V) → lookup key d ≡ some v → lookup_or key default d ≡ v
  unfolding lookup_or
  lookup_or-some key default v d h = ap (λ o. elim o [ none ↦ default | some w ↦ w ]) h

  pub lookup_or-none :
      (key : K) (default : V) (d : Dict K V)
      → lookup key d ≡ none
      → lookup_or key default d ≡ default
  unfolding lookup_or
  lookup_or-none key default d h = ap (λ o. elim o [ none ↦ default | some w ↦ w ]) h
