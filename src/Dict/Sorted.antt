-- ===== src/Dict/Sorted.antt =====
-- What a sorted dictionary finds.
use bms_gui.Prelude.{
  arith, if◌then◌else◌, String, ◌≡◌, refl, sym, ◌∙◌, ap, false, none, some, none-some, [], ◌∷◌, All,
  inl, inr, Option-cases, Bool-cases, if_true, if_false, str_eq, Bool, insert_by, sort_by, subst,
}
use bms_gui.Dict.{Eq, Dict, lookup, lookup_or}
use bms_gui.Dict.Keys.{string_key, sorted_items}
use bms_gui.Dict.Laws.{lookup_or-some}
use bms_gui.Dict.Agree.{IsDict, Agrees-All, All-sorted_items, found-All, missing-sorted}

module _ {V : Type 0} where
  lookup-missing :
      (key : String) (d : Dict String V) → lookup key d ≡ none → All (λ p. str_eq p.0 key ≡ false) d
  unfolding lookup
  lookup-missing key [] h = tt
  lookup-missing key (p ∷ d) h = elim (Bool-cases (str_eq p.0 key)) [
    | inl same ↦ absurd (none-some (sym (if_true (str_eq p.0 key) _ _ same h)))
    | inr other ↦ (other, lookup-missing key d (if_false (str_eq p.0 key) _ _ other h))
  ]

  missing-lookup :
      (key : String) (d : Dict String V) → All (λ p. str_eq p.0 key ≡ false) d → lookup key d ≡ none
  unfolding lookup
  missing-lookup key [] all = refl
  missing-lookup key (p ∷ d) all = rw all.0 (missing-lookup key d all.1)

  -- Sorting does not change what is found.
  pub lookup-sorted_items :
      (default : V) (key : String) (d : Dict String V)
      → IsDict default d
      → lookup key (sorted_items d) ≡ lookup key d
  lookup-sorted_items default key d h = elim (Option-cases (lookup key d)) [
    | inl missing ↦
        missing-lookup key (sorted_items d) (All-sorted_items _ d (lookup-missing key d missing))
        ∙ sym missing
    | inr (w, found) ↦ elim (Option-cases (lookup key (sorted_items d))) [
      | inl missing ↦ absurd (none-some (sym (missing-sorted default key d missing) ∙ found))
      | inr (v, found_sorted) ↦
          found_sorted
          ∙ ap some (
              found-All default (λ k. lookup_or k default d) key (sorted_items d) v
                (All-sorted_items _ d (Agrees-All _ d h)) found_sorted
              ∙ lookup_or-some key default w d found)
          ∙ sym found
    ]
  ]

-- Rows of distinct keys, in any order.
module _ {K V : Type 0} ⦃e : Eq K⦄ (le : K × V → K × V → Bool) where
  lookup-insert_by :
      (key : K) (p : K × V) (d : Dict K V)
      → lookup key (insert_by le p d) ≡ none
      → lookup key (p ∷ d) ≡ none
  unfolding insert_by lookup
  lookup-insert_by key p [] h = h
  lookup-insert_by key p (q ∷ d) h = elim (Bool-cases (le p q)) [
    | inl before ↦
        subst
          (λ b.
            lookup key (if b then p ∷ q ∷ d else q ∷ insert_by le p d) ≡ none
            → lookup key (p ∷ q ∷ d) ≡ none)
          (sym before) (λ k. k) h
    | inr after ↦ ground (arith, after, h, lookup-insert_by key p d)
  ]

  -- What is missing after sorting was missing before.
  pub lookup-sort_by :
      (key : K) (d : Dict K V) → lookup key (sort_by le d) ≡ none → lookup key d ≡ none
  unfolding sort_by lookup
  lookup-sort_by key [] h = h
  lookup-sort_by key (p ∷ d) h =
      let k = lookup-insert_by key p (sort_by le d) h in
      elim (Bool-cases (e.beq p.0 key)) [
        | inl same ↦ absurd (none-some (sym (if_true (e.beq p.0 key) _ _ same k)))
        | inr other ↦ rw other (lookup-sort_by key d (if_false (e.beq p.0 key) _ _ other k))
      ]
