-- ===== src/Accounting/Validation/Totals.antt =====
-- The totals of the lines of a journal, by its parts.
use bms_gui.Prelude.{
  String, ◌≡◌, refl, sym, Bool, true, false, List, [], ◌∷◌, ◌++◌, ℤ, pos, ◌+ℤ◌, nonzero, sum, arith,
  int_laws, eqb_ℤ_iff, sum-append, if◌then◌else◌,
}
use mathlib.Core.List.{map-append}
use bms_gui.Accounting.Models.{JournalLine, debit_line, credit_line}
use bms_gui.Accounting.Validation.{debit_total, credit_total}

-- Lines whose totals are these.
pub record HasTotals (debits credits : ℤ) (lines : List JournalLine) : Type 0 where
  pub debit : debit_total lines ≡ debits
  pub credit : credit_total lines ≡ credits

pub append-HasTotals :
    (a b c d : ℤ) (xs ys : List JournalLine)
    → HasTotals a b xs
    → HasTotals c d ys
    → HasTotals (a +ℤ c) (b +ℤ d) (xs ++ ys)
append-HasTotals a b c d xs ys h k = record {
  debit = rw (map-append (λ (l : JournalLine). l.debit_minor) xs ys, sum-append, h.debit, k.debit);
  credit =
      rw (map-append (λ (l : JournalLine). l.credit_minor) xs ys, sum-append, h.credit, k.credit);
}

pub pair-HasTotals :
    (from into currency memo memo' : String) (d c : ℤ)
    → HasTotals d c (debit_line from d currency memo ∷ credit_line into c currency memo' ∷ [])
unfolding sum
pair-HasTotals from into currency memo memo' d c = record {
  debit = omega int_laws;
  credit = omega int_laws;
}

pub debit-HasTotals :
    (code currency memo : String) (d : ℤ)
    → HasTotals d (pos 0) (debit_line code d currency memo ∷ [])
unfolding sum
debit-HasTotals code currency memo d = record { debit = omega int_laws; credit = omega int_laws }

pub credit-HasTotals :
    (code currency memo : String) (c : ℤ)
    → HasTotals (pos 0) c (credit_line code c currency memo ∷ [])
unfolding sum
credit-HasTotals code currency memo c = record { debit = omega int_laws; credit = omega int_laws }

nonzero-false : (n : ℤ) → nonzero n ≡ false → n ≡ pos 0
nonzero-false n h = ground (arith, eqb_ℤ_iff n (pos 0))

-- Lines that are left out where their amount is zero.
optional_lines :
    (b : Bool) (d c : ℤ) (lines : List JournalLine)
    → (b ≡ false → (d ≡ pos 0) × (c ≡ pos 0))
    → HasTotals d c lines
    → HasTotals d c (if b then lines else [])
unfolding sum
optional_lines true d c lines z h = h
optional_lines false d c lines z h = record { debit = sym (z refl).0; credit = sym (z refl).1 }

pub optional-pair :
    (from into currency memo memo' : String) (n : ℤ)
    → HasTotals n n (
        if nonzero n
        then debit_line from n currency memo ∷ credit_line into n currency memo' ∷ []
        else [])
optional-pair from into currency memo memo' n =
    optional_lines (nonzero n) n n _ (λ e. (nonzero-false n e, nonzero-false n e))
      (pair-HasTotals from into currency memo memo' n n)

pub optional-credit :
    (code currency memo : String) (n : ℤ)
    → HasTotals (pos 0) n (if nonzero n then credit_line code n currency memo ∷ [] else [])
optional-credit code currency memo n =
    optional_lines (nonzero n) (pos 0) n _ (λ e. (refl, nonzero-false n e))
      (credit-HasTotals code currency memo n)

pub optional-debit :
    (code currency memo : String) (n : ℤ)
    → HasTotals n (pos 0) (if nonzero n then debit_line code n currency memo ∷ [] else [])
optional-debit code currency memo n =
    optional_lines (nonzero n) n (pos 0) _ (λ e. (nonzero-false n e, refl))
      (debit-HasTotals code currency memo n)
