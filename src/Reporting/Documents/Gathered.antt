-- ===== src/Reporting/Documents/Gathered.antt =====
-- What the rows of the reports on invoices and refunds hold, with their totals.
use bms_gui.Prelude.{
  select, String, ◌≡◌, refl, sym, ◌∙◌, ap, subst, Bool, true, false, Option, none, some, List, [],
  ◌∷◌, ◌++◌, map, All, inl, inr, Bool-cases, sort_by, IsAscending, sort_by-perm,
  sort_by-IsAscending, arith, if_true, if_false,
}
use mathlib.Core.List.{Perm, map-append, append-nil, append_assoc}
use bms_gui.Dict.{Dict}
use bms_gui.Dict.Agree.{Agrees-All, All-sorted_items, All-values}
use bms_gui.Dict.Keys.{string_key, sorted_items}
use bms_gui.Json.{Payload, get, as_text}
use bms_gui.Result.{
  Result, ok, ok-eq, found-ok, fold_each, collect-append, >>=-eq-ok, ◌>>=◌, collect,
}
use bms_gui.Reporting.Models.{CurrencyTotals}
use bms_gui.Reporting.Payloads.{nonempty, str_payload, in_period}
use bms_gui.Reporting.Documents.{
  Amounts, amounts_of, Reading, add_document, read_documents, totals_of,
}
use bms_gui.Reporting.Documents.Totals.{
  totals_for, IsTotalled, no_rows-IsTotalled, add_amounts-IsTotalled, totals_for-sort_by,
  totals_for-currency,
}

-- A document of the period.
abbrev pub chosen : Option String → Option String → Bool
chosen period_id none = false
chosen period_id (some found) = in_period period_id found

abbrev pub of_period : Option String → Payload → Bool
of_period period_id payload = chosen period_id (as_text (get "period_id" payload))

nonempty-eq : (o : Option String) (s : String) → nonempty o ≡ some s → o ≡ some s
nonempty-eq o s h = ground arith

pub str_payload-ok :
    (payload : Payload) (key : String) {s : String}
    → str_payload payload key ≡ ok s
    → as_text (get key payload) ≡ some s
unfolding str_payload
str_payload-ok payload key h =
    let (s, found, e) = found-ok (nonempty (as_text (get key payload))) _ (λ s. ok s) h in
    nonempty-eq (as_text (get key payload)) s found ∙ ap some (ok-eq e)

select-cons :
    {A : Type 0} (test : A → Bool) (x : A) (xs : List A)
    → select test (x ∷ xs) ≡ select test (x ∷ []) ++ select test xs
select-cons test x xs = elim (Bool-cases (test x)) [
  | inl kept ↦ rw kept refl
  | inr left ↦ rw left refl
]

module _ {Row : Type 0} (row_of : String → Amounts → Payload → Result Row) where
  -- The row of a document.
  unfoldable pub document_row : Payload → Result Row
  document_row payload = str_payload payload "period_id" >>= λ found.
      amounts_of payload >>= λ a. row_of found a payload

  -- A report: the rows in order, and the totals of each currency.
  pub record IsReported (amounts : Row → Amounts) (le : Row → Row → Bool)
      (period_id : Option String) (documents : List Payload) (rows : List Row)
      (totals : List CurrencyTotals) : Type 0 where
    pub read : List Row
    pub each : collect document_row (select (of_period period_id) documents) ≡ ok read
    pub same_rows : Perm rows read
    pub ascending : IsAscending le rows
    pub totalled : All (λ (t : CurrencyTotals). t ≡ totals_for t.currency (map amounts rows)) totals

module _ {Row : Type 0} (row_of : String → Amounts → Payload → Result Row) (amounts : Row → Amounts)
    (amounts-row_of : (period_id : String) (a : Amounts) (payload : Payload) (row : Row)
      → row_of period_id a payload ≡ ok row
      → amounts row ≡ a) where
  -- What the loop has read: a row for each document of the period, in order, and the totals of
  -- the rows.
  record Gathered (period_id : Option String) (documents : List Payload) (before : List Row)
      (reading : Reading Row) : Type 0 where
    added : List Row
    each : collect (document_row row_of) (select (of_period period_id) documents) ≡ ok added
    rows : reading.0 ≡ before ++ added
    totalled : IsTotalled (map amounts reading.0) reading.1

  add_document-Gathered :
      (period_id : Option String) (reading : Reading Row) (payload : Payload) {next : Reading Row}
      → IsTotalled (map amounts reading.0) reading.1
      → add_document row_of period_id reading payload ≡ ok next
      → Gathered period_id (payload ∷ []) reading.0 next
  unfolding add_document document_row collect
  add_document-Gathered period_id (rows, totals) payload h e =
      let (found, read, e1) = >>=-eq-ok (str_payload payload "period_id") _ e in
      elim (Bool-cases (in_period period_id found)) [
        | inl inside ↦
            let (a, amounts_read, e2) =
              >>=-eq-ok (amounts_of payload) _
                (if_true (in_period period_id found) _ _ inside e1) in
            let (row, row_read, e3) = >>=-eq-ok (row_of found a payload) _ e2 in
            subst (Gathered period_id (payload ∷ []) rows) (ok-eq e3) (record {
              added = row ∷ [];
              each =
                  rw (str_payload-ok payload "period_id" read, inside, read, amounts_read, row_read)
                    refl;
              rows = refl;
              totalled =
                  rw
                    (
                      map-append amounts rows (row ∷ []),
                      amounts-row_of found a payload row row_read,
                    )
                    (add_amounts-IsTotalled (map amounts rows) totals a h);
            })
        | inr outside ↦
            subst (Gathered period_id (payload ∷ []) rows)
              (ok-eq (if_false (in_period period_id found) _ _ outside e1))
              (record {
                added = [];
                each = rw (str_payload-ok payload "period_id" read, outside) refl;
                rows = sym (append-nil rows);
                totalled = h;
              })
      ]

  read_documents-Gathered :
      (period_id : Option String) (documents : List Payload) (reading : Reading Row)
      {final : Reading Row}
      → IsTotalled (map amounts reading.0) reading.1
      → fold_each (add_document row_of period_id) reading documents ≡ ok final
      → Gathered period_id documents reading.0 final
  unfolding fold_each collect
  read_documents-Gathered period_id [] reading h e =
      subst (Gathered period_id [] reading.0) (ok-eq e)
        (record { added = []; each = refl; rows = sym (append-nil reading.0); totalled = h })
  read_documents-Gathered period_id (payload ∷ documents) reading h e =
      let (next, first, rest) = >>=-eq-ok (add_document row_of period_id reading payload) _ e in
      let one = add_document-Gathered period_id reading payload h first in
      let others = read_documents-Gathered period_id documents next one.totalled rest in
      record {
        added = one.added ++ others.added;
        each =
            ap (collect (document_row row_of)) (select-cons (of_period period_id) payload documents)
            ∙ collect-append (document_row row_of) (select (of_period period_id) (payload ∷ []))
                (select (of_period period_id) documents) one.each others.each;
        rows =
            others.rows
            ∙ ap (λ rs. rs ++ others.added) one.rows
            ∙ append_assoc reading.0 one.added others.added;
        totalled = others.totalled;
      }

  pub read_documents-IsReported :
      (le : Row → Row → Bool) (period_id : Option String) (documents : List Payload)
      (reading : Reading Row)
      → ((a b : Row) → le a b ≡ false → le b a ≡ true)
      → read_documents row_of period_id documents ≡ ok reading
      → IsReported row_of amounts le period_id documents
          (sort_by le reading.0)
          (totals_of reading.1)
  unfolding read_documents totals_of
  read_documents-IsReported le period_id documents reading total h =
      let done = read_documents-Gathered period_id documents ([], []) no_rows-IsTotalled h in
      record {
        read = reading.0;
        each = done.each ∙ ap ok (sym done.rows);
        same_rows = sort_by-perm le reading.0;
        ascending = sort_by-IsAscending le total reading.0;
        totalled = All-values _ (sorted_items reading.1) (
            All-sorted_items _ reading.1
              (entry-totalled reading.1 (Agrees-All _ reading.1 done.totalled.entries)));
      }
    where
      own_currency :
          (t : CurrencyTotals) (key : String)
          → t ≡ totals_for key (map amounts reading.0)
          → t ≡ totals_for t.currency (map amounts (sort_by le reading.0))
      own_currency t key e =
          e
          ∙ sym (totals_for-sort_by amounts le key reading.0)
          ∙ ap (λ k. totals_for k (map amounts (sort_by le reading.0)))
              (sym (
                ap (λ (t : CurrencyTotals). t.currency) e
                ∙ totals_for-currency key (map amounts reading.0)))

      entry-totalled :
          (d : Dict String CurrencyTotals)
          → All (λ p. p.1 ≡ totals_for p.0 (map amounts reading.0)) d
          → All (λ p. p.1 ≡ totals_for (p.1).currency (map amounts (sort_by le reading.0))) d
      entry-totalled [] all = tt
      entry-totalled (p ∷ d) all = (own_currency p.1 p.0 all.0, entry-totalled d all.1)
