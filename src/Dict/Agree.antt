-- ===== src/Dict/Agree.antt =====
-- Dictionaries whose values are those of a function.
use bms_gui.Prelude.{
  str_eq, str_eq_refl, eq_iff, none-some, Option-cases, if_true, if_false, String, ◌≡◌, refl, sym,
  ◌∙◌, ap, subst, false, none, some, [], ◌∷◌, All, inl, inr, Bool-cases, arith, if◌then◌else◌,
}
use bms_gui.Dict.{Eq, Dict, lookup, lookup_or, insert, values}
use bms_gui.Dict.Laws.{lookup_or-insert, lookup_or-some, lookup_or-none}
use bms_gui.Dict.Keys.{string_key, str_le, insert_item, sorted_items}

module _ {V : Type 0} where
  -- A predicate of the entries survives sorting.
  All-insert_item :
      (P : String × V → Type 0) (p : String × V) (d : Dict String V)
      → P p
      → All P d
      → All P (insert_item p d)
  All-insert_item P p [] h all = (h, tt)
  All-insert_item P p (q ∷ d) h all = elim (Bool-cases (str_le p.0 q.0)) [
    | inl before ↦ rw before (h, all)
    | inr after ↦ rw after (all.0, All-insert_item P p d h all.1)
  ]

  pub All-sorted_items :
      (P : String × V → Type 0) (d : Dict String V) → All P d → All P (sorted_items d)
  unfolding sorted_items
  All-sorted_items P [] all = tt
  All-sorted_items P (p ∷ d) all =
      All-insert_item P p (sorted_items d) all.0 (All-sorted_items P d all.1)

  pub All-values : (P : V → Type 0) (d : Dict String V) → All (λ p. P p.1) d → All P (values d)
  All-values P [] all = tt
  All-values P (p ∷ d) all = (all.0, All-values P d all.1)

  -- Keys that are missing.
  lookup-insert_item :
      (key : String) (p : String × V) (d : Dict String V)
      → lookup key (insert_item p d) ≡ none
      → lookup key (p ∷ d) ≡ none
  unfolding lookup
  lookup-insert_item key p [] h = h
  lookup-insert_item key p (q ∷ d) h = elim (Bool-cases (str_le p.0 q.0)) [
    | inl before ↦
        subst
          (λ b.
            lookup key (if b then p ∷ q ∷ d else q ∷ insert_item p d) ≡ none
            → lookup key (p ∷ q ∷ d) ≡ none)
          (sym before) (λ k. k) h
    | inr after ↦ ground (arith, after, h, lookup-insert_item key p d)
  ]

pub beq_sym : {K : Type 0} ⦃e : Eq K⦄ (a b : K) → e.beq a b ≡ false → e.beq b a ≡ false
beq_sym ⦃e⦄ a b h = ground (arith, e.beq_iff a b, e.beq_iff b a)

module _ {K : Type 0} {V : Type 0} ⦃e : Eq K⦄ where
  -- The key is not in the dictionary.
  abbrev pub Fresh : K → Dict K V → Type 0
  Fresh key d = All (λ p. e.beq p.0 key ≡ false) d

  -- The keys are distinct, and every entry has the value of its key.
  abbrev pub Agrees : (K → V) → Dict K V → Type 0
  Agrees f [] = Unit
  Agrees f (p ∷ d) = (p.1 ≡ f p.0) × Fresh p.0 d × Agrees f d

  Fresh-insert :
      (j key : K) (value : V) (d : Dict K V)
      → e.beq key j ≡ false
      → Fresh j d
      → Fresh j (insert key value d)
  unfolding insert
  Fresh-insert j key value [] h all = (h, tt)
  Fresh-insert j key value ((i, v) ∷ d) h all = elim (Bool-cases (e.beq i key)) [
    | inl same ↦ rw same (all.0, all.1)
    | inr other ↦ rw other (all.0, Fresh-insert j key value d h all.1)
  ]

  Agrees-elsewhere :
      (f g : K → V) (key : K) (d : Dict K V)
      → ((j : K) → e.beq j key ≡ false → f j ≡ g j)
      → Fresh key d
      → Agrees f d
      → Agrees g d
  Agrees-elsewhere f g key [] same missing all = tt
  Agrees-elsewhere f g key (p ∷ d) same missing all =
      (all.0 ∙ same p.0 missing.0, all.1, Agrees-elsewhere f g key d same missing.1 all.2)

  -- An insertion, where `f` and `g` differ only at its key.
  pub Agrees-insert :
      (f g : K → V) (key : K) (value : V) (d : Dict K V)
      → value ≡ g key
      → ((j : K) → e.beq j key ≡ false → f j ≡ g j)
      → Agrees f d
      → Agrees g (insert key value d)
  unfolding insert
  Agrees-insert f g key value [] here there all = (here, tt, tt)
  Agrees-insert f g key value ((j, v) ∷ d) here there all = elim (Bool-cases (e.beq j key)) [
    | inl same ↦
        let j_is : j ≡ key = (e.beq_iff j key).0 same in
        rw same (
          here ∙ ap g (sym j_is),
          all.1,
          Agrees-elsewhere f g key d there (subst (λ k. Fresh k d) j_is all.1) all.2,
        )
    | inr other ↦ rw other (
      all.0 ∙ there j other,
      Fresh-insert j key value d (beq_sym j key other) all.1,
      Agrees-insert f g key value d here there all.2,
    )
  ]

  -- Without the keys.
  pub Agrees-All : (f : K → V) (d : Dict K V) → Agrees f d → All (λ p. p.1 ≡ f p.0) d
  Agrees-All f [] all = tt
  Agrees-All f (p ∷ d) all = (all.0, Agrees-All f d all.2)

-- Distinct keys: every entry is what its key finds.
abbrev pub IsDict : {V : Type 0} → V → Dict String V → Type 0
IsDict default d = Agrees (λ key. lookup_or key default d) d

module _ {V : Type 0} (default : V) where
  pub IsDict-insert :
      (key : String) (value : V) (d : Dict String V)
      → IsDict default d
      → IsDict default (insert key value d)
  IsDict-insert key value d h =
      Agrees-insert (λ k. lookup_or k default d) (λ k. lookup_or k default (insert key value d)) key
        value d (rw (lookup_or-insert key key value default d, str_eq_refl key) refl)
        (λ j other. rw (lookup_or-insert key j value default d, beq_sym j key other) refl) h

  pub found-All :
      (f : String → V) (key : String) (d : Dict String V) (v : V)
      → All (λ p. p.1 ≡ f p.0) d
      → lookup key d ≡ some v
      → v ≡ f key
  unfolding lookup
  found-All f key [] v all h = absurd (none-some h)
  found-All f key ((k, w) ∷ d) v all h = elim (Bool-cases (str_eq k key)) [
    | inl same ↦
        some-eq (sym (if_true (str_eq k key) _ _ same h)) ∙ all.0 ∙ ap f ((eq_iff k key).0 same)
    | inr other ↦ found-All f key d v all.1 (if_false (str_eq k key) _ _ other h)
  ]
    where
      some-eq : {a b : V} → some a ≡ some b → a ≡ b
      some-eq e = ground arith

  pub missing-sorted :
      (key : String) (d : Dict String V) → lookup key (sorted_items d) ≡ none → lookup key d ≡ none
  unfolding sorted_items lookup
  missing-sorted key [] h = h
  missing-sorted key (p ∷ d) h =
      let k = lookup-insert_item key p (sorted_items d) h in
      elim (Bool-cases (str_eq p.0 key)) [
        | inl same ↦ absurd (none-some (sym (if_true (str_eq p.0 key) _ _ same k)))
        | inr other ↦ rw other (missing-sorted key d (if_false (str_eq p.0 key) _ _ other k))
      ]

  -- Sorting does not change what a key finds.
  pub lookup_or-sorted_items :
      (key : String) (d : Dict String V)
      → IsDict default d
      → lookup_or key default (sorted_items d) ≡ lookup_or key default d
  lookup_or-sorted_items key d h = elim (Option-cases (lookup key (sorted_items d))) [
    | inl missing ↦
        lookup_or-none key default (sorted_items d) missing
        ∙ sym (lookup_or-none key default d (missing-sorted key d missing))
    | inr (v, found) ↦
        lookup_or-some key default v (sorted_items d) found
        ∙ found-All (λ k. lookup_or k default d) key (sorted_items d) v
            (All-sorted_items _ d (Agrees-All _ d h)) found
  ]
