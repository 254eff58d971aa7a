-- ===== src/Accounting/Balances/Balanced.antt =====
-- The trial balance over entries that `post_journal` wrote.
use bms_gui.Prelude.{
  String, ◌≡◌, refl, true, some, List, [], ◌∷◌, ℤ, pos, ◌+ℤ◌, arith, All, inl, inr, Bool-cases,
  eqb_ℤ_iff,
}
use bms_gui.Json.{Payload, int, get, is_text}
use bms_gui.Result.{ok, fold_each}
use bms_gui.Accounting.Models.{TrialBalance, is_balanced}
use bms_gui.Accounting.Validation.{int_payload}
use bms_gui.Accounting.Balances.{add_entry, trial_balance_of}
use bms_gui.Accounting.Posting.Balanced.{IsBalancedEntry}

int_payload-ok :
    (field : String) (n : ℤ) (p : Payload) → get field p ≡ some (int n) → int_payload field p ≡ ok n
unfolding int_payload
int_payload-ok field n p h = ground arith

-- An entry adds one amount to both totals, or nothing.
add_entry-same :
    (period_id : String) (d : ℤ) (p : Payload)
    → IsBalancedEntry p
    → (d' : ℤ) × (add_entry period_id (d, d) p ≡ ok (d', d'))
unfolding add_entry
add_entry-same period_id d p b = elim (Bool-cases (is_text (get "period_id" p) period_id)) [
  | inl chosen ↦ (
    d +ℤ b.amount,
    rw (
      chosen,
      int_payload-ok "debit_total_minor" b.amount p b.debits,
      int_payload-ok "credit_total_minor" b.amount p b.credits,
    ),
  )
  | inr other ↦ (d, rw other)
]

fold-add_entry :
    (period_id : String) (d : ℤ) (entries : List Payload)
    → All IsBalancedEntry entries
    → (d' : ℤ) × (fold_each (add_entry period_id) (d, d) entries ≡ ok (d', d'))
unfolding fold_each
fold-add_entry period_id d [] all = (d, refl)
fold-add_entry period_id d (p ∷ rest) (b, all) =
    let (d1, first) = add_entry-same period_id d p b in
    let (d2, others) = fold-add_entry period_id d1 rest all in (d2, rw first others)

-- Over balanced entries the trial balance of a period is found, and its totals agree.
pub trial_balance_of-balanced :
    (period_id : String) (entries : List Payload)
    → All IsBalancedEntry entries
    → (t : TrialBalance) × (trial_balance_of period_id entries ≡ ok t) × (is_balanced t ≡ true)
unfolding trial_balance_of
trial_balance_of-balanced period_id entries all =
    let (d, sums) = fold-add_entry period_id (pos 0) entries all in
    (
      record { period_id = period_id; debit_total_minor = d; credit_total_minor = d },
      rw sums,
      (eqb_ℤ_iff d d).1 refl,
    )
