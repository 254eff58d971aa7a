-- ===== src/Reporting/Documents/Totals.antt =====
-- What the totals of the reports on invoices and refunds hold.
use bms_gui.Prelude.{
  String, ◌≡◌, refl, sym, ◌∙◌, ap, Bool, true, false, List, [], ◌∷◌, ◌++◌, map, ℤ, ◌+ℤ◌, int_laws,
  str_eq, str_eq_refl, eq_iff, inl, inr, Bool-cases, insert_by, sort_by, if◌then◌else◌,
}
use bms_gui.Dict.{Dict, lookup_or}
use bms_gui.Dict.Laws.{lookup_or-insert}
use bms_gui.Dict.Agree.{Agrees, Agrees-insert, beq_sym}
use bms_gui.Dict.Keys.{string_key}
use bms_gui.Reporting.Models.{CurrencyTotals}
use bms_gui.Reporting.Documents.{Amounts, no_totals, plus, add_amounts}

-- The totals of a currency over the amounts of some rows, the first row first.
unfoldable pub totals_from : String → CurrencyTotals → List Amounts → CurrencyTotals
totals_from currency acc [] = acc
totals_from currency acc (a ∷ rest) =
    totals_from currency (if str_eq a.currency currency then plus acc a else acc) rest

unfoldable pub totals_for : String → List Amounts → CurrencyTotals
totals_for currency rows = totals_from currency (no_totals currency) rows

totals_from-append :
    (currency : String) (acc : CurrencyTotals) (rows : List Amounts) (a : Amounts)
    → totals_from currency acc (rows ++ a ∷ []) ≡ (
        if str_eq a.currency currency
        then plus (totals_from currency acc rows) a
        else totals_from currency acc rows)
unfolding totals_from
totals_from-append currency acc [] a = refl
totals_from-append currency acc (b ∷ rows) a =
    totals_from-append currency (if str_eq b.currency currency then plus acc b else acc) rows a

plus_comm : (acc : CurrencyTotals) (a b : Amounts) → plus (plus acc a) b ≡ plus (plus acc b) a
plus_comm acc a b = λ i. record {
  currency = acc.currency;
  subtotal_minor = swap acc.subtotal_minor a.subtotal_minor b.subtotal_minor i;
  tax_minor = swap acc.tax_minor a.tax_minor b.tax_minor i;
  total_minor = swap acc.total_minor a.total_minor b.total_minor i;
}
  where
    swap : (x y z : ℤ) → x +ℤ y +ℤ z ≡ x +ℤ z +ℤ y
    swap x y z = omega int_laws

-- The order of two rows does not matter.
totals_from-swap :
    (currency : String) (acc : CurrencyTotals) (a b : Amounts) (rows : List Amounts)
    → totals_from currency acc (a ∷ b ∷ rows) ≡ totals_from currency acc (b ∷ a ∷ rows)
unfolding totals_from
totals_from-swap currency acc a b rows =
    ap (λ t. totals_from currency t rows)
      (swapped (str_eq a.currency currency) (str_eq b.currency currency))
  where
    swapped :
        (x y : Bool)
        → (if y then plus (if x then plus acc a else acc) b else if x then plus acc a else acc)
          ≡ (if x then plus (if y then plus acc b else acc) a else if y then plus acc b else acc)
    swapped true true = plus_comm acc a b
    swapped true false = refl
    swapped false true = refl
    swapped false false = refl

module _ {Row : Type 0} (amounts : Row → Amounts) (le : Row → Row → Bool) where
  totals_from-insert_by :
      (currency : String) (acc : CurrencyTotals) (x : Row) (rows : List Row)
      → totals_from currency acc (map amounts (insert_by le x rows))
        ≡ totals_from currency acc (map amounts (x ∷ rows))
  unfolding insert_by totals_from
  totals_from-insert_by currency acc x [] = refl
  totals_from-insert_by currency acc x (y ∷ rows) = elim (Bool-cases (le x y)) [
    | inl before ↦ rw before refl
    | inr after ↦ rw after (
        totals_from-insert_by currency
          (if str_eq (amounts y).currency currency then plus acc (amounts y) else acc) x rows
        ∙ totals_from-swap currency acc (amounts y) (amounts x) (map amounts rows))
  ]

  -- Sorted rows have the same totals.
  pub totals_from-sort_by :
      (currency : String) (acc : CurrencyTotals) (rows : List Row)
      → totals_from currency acc (map amounts (sort_by le rows))
        ≡ totals_from currency acc (map amounts rows)
  unfolding sort_by totals_from
  totals_from-sort_by currency acc [] = refl
  totals_from-sort_by currency acc (x ∷ rows) =
      totals_from-insert_by currency acc x (sort_by le rows)
      ∙ totals_from-sort_by currency
          (if str_eq (amounts x).currency currency then plus acc (amounts x) else acc) rows

  pub totals_for-sort_by :
      (currency : String) (rows : List Row)
      → totals_for currency (map amounts (sort_by le rows)) ≡ totals_for currency (map amounts rows)
  unfolding totals_for
  totals_for-sort_by currency rows = totals_from-sort_by currency (no_totals currency) rows

totals_from-currency :
    (currency : String) (acc : CurrencyTotals) (rows : List Amounts)
    → (totals_from currency acc rows).currency ≡ acc.currency
unfolding totals_from
totals_from-currency currency acc [] = refl
totals_from-currency currency acc (a ∷ rows) =
    totals_from-currency currency (if str_eq a.currency currency then plus acc a else acc) rows
    ∙ kept_currency (str_eq a.currency currency)
  where
    kept_currency : (b : Bool) → (if b then plus acc a else acc).currency ≡ acc.currency
    kept_currency true = refl
    kept_currency false = refl

pub totals_for-currency :
    (currency : String) (rows : List Amounts) → (totals_for currency rows).currency ≡ currency
unfolding totals_for
totals_for-currency currency rows = totals_from-currency currency (no_totals currency) rows

-- The totals of the rows read so far.
pub record IsTotalled (rows : List Amounts) (totals : Dict String CurrencyTotals) : Type 0 where
  pub found :
      (currency : String)
      → lookup_or currency (no_totals currency) totals ≡ totals_for currency rows
  pub entries : Agrees (λ currency. totals_for currency rows) totals

pub no_rows-IsTotalled : IsTotalled [] []
unfolding lookup_or bms_gui.Dict.lookup totals_for totals_from
no_rows-IsTotalled = record { found = λ currency. refl; entries = tt }

other_totals :
    (rows : List Amounts) (a : Amounts) (currency : String)
    → str_eq a.currency currency ≡ false
    → totals_for currency (rows ++ a ∷ []) ≡ totals_for currency rows
unfolding totals_for
other_totals rows a currency other =
    rw (totals_from-append currency (no_totals currency) rows a, other) refl

pub add_amounts-IsTotalled :
    (rows : List Amounts) (totals : Dict String CurrencyTotals) (a : Amounts)
    → IsTotalled rows totals
    → IsTotalled (rows ++ a ∷ []) (add_amounts a totals)
unfolding add_amounts totals_for
add_amounts-IsTotalled rows totals a h =
    let old = lookup_or a.currency (no_totals a.currency) totals in
    let own : plus old a ≡ totals_for a.currency (rows ++ a ∷ []) =
      rw (totals_from-append a.currency (no_totals a.currency) rows a, str_eq_refl a.currency)
        (ap (λ t. plus t a) (h.found a.currency)) in
    record {
      found = λ currency. elim (Bool-cases (str_eq a.currency currency)) [
        | inl same ↦
            rw (lookup_or-insert a.currency currency (plus old a) (no_totals currency) totals, same)
              (own ∙ ap (λ c. totals_for c (rows ++ a ∷ [])) ((eq_iff a.currency currency).0 same))
        | inr other ↦
            rw
              (lookup_or-insert a.currency currency (plus old a) (no_totals currency) totals, other)
              (h.found currency ∙ sym (other_totals rows a currency other))
      ];
      entries =
          Agrees-insert (λ currency. totals_for currency rows) _ a.currency (plus old a) totals own
            (λ j other. sym (other_totals rows a j (beq_sym j a.currency other))) h.entries;
    }
