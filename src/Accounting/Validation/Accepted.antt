-- ===== src/Accounting/Validation/Accepted.antt =====
-- What a journal command that passes the checks is like.
use bms_gui.Prelude.{
  ◌≤◌, String, ◌≡◌, ◌⊎◌, true, false, some, List, [], ◌∷◌, length, All, ℤ, pos, ◌+ℤ◌, ◌≤ℤ◌, str_in,
  sum, int_laws, zero-+ℤ, arith, inl, inr, Option-cases, eqb_ℤ_iff,
}
use bms_gui.Dict.{Dict, lookup}
use bms_gui.Dict.Keys.{string_key}
use bms_gui.Result.{ok, >>=-eq-ok, Result-cases, fold_each}
use bms_gui.Accounting.Models.{Account, JournalLine, PostJournalCommand}
use bms_gui.Accounting.Validation.{
  validate_line, add_line, validate_post_command, currencies, debit_total, credit_total,
}

-- A line on an active account, with one positive amount and the other zero.
pub record IsPostable (accounts : Dict String Account) (line : JournalLine) : Type 0 where
  pub account : Account
  pub known : lookup line.account_code accounts ≡ some account
  pub active : account.active ≡ true
  pub one_side :
      ((pos 1 ≤ℤ line.debit_minor) × (line.credit_minor ≡ pos 0))
      ⊎ ((line.debit_minor ≡ pos 0) × (pos 1 ≤ℤ line.credit_minor))

module _ (accounts : Dict String Account) where
  validate_line-IsPostable :
      (line : JournalLine) → validate_line accounts line ≡ ok tt → IsPostable accounts line
  unfolding validate_line
  validate_line-IsPostable line h = elim (Option-cases (lookup line.account_code accounts)) [
    | inl unknown ↦ ground arith
    | inr (found, e) ↦ record {
      account = found;
      known = e;
      active = ground arith;
      one_side = ground arith;
    }
  ]

  add_line-ok :
      (d c : ℤ) (line : JournalLine) {acc : ℤ × ℤ}
      → add_line accounts (d, c) line ≡ ok acc
      → (validate_line accounts line ≡ ok tt)
        × (acc ≡ (d +ℤ line.debit_minor, c +ℤ line.credit_minor))
  unfolding add_line
  add_line-ok d c line h = ground arith

  -- The loop adds up the amounts, and every line passed.
  fold-add_line :
      (debits credits : ℤ) (lines : List JournalLine) {totals : ℤ × ℤ}
      → fold_each (add_line accounts) (debits, credits) lines ≡ ok totals
      → (totals.0 ≡ debits +ℤ debit_total lines)
        × (totals.1 ≡ credits +ℤ credit_total lines)
        × All (IsPostable accounts) lines
  unfolding fold_each sum
  fold-add_line d c [] h = grind int_laws
  fold-add_line d c (line ∷ lines) h =
      let (acc, first, rest) =
        >>=-eq-ok (add_line accounts (d, c) line) (λ acc. fold_each (add_line accounts) acc lines)
          h in
      let (passed, added) = add_line-ok d c line first in
      let (debits, credits, others) = fold-add_line acc.0 acc.1 lines rest in
      (
        rw debits (rw added (omega int_laws)),
        rw credits (rw added (omega int_laws)),
        (validate_line-IsPostable line passed, others),
      )

  -- The checks before a journal is posted, said of the command.
  pub record IsAccepted (closed : List String) (command : PostJournalCommand) : Type 0 where
    pub period_open : str_in command.period_id closed ≡ false
    pub enough_lines : 2 ≤ length command.lines
    pub one_currency : length (currencies command.lines) ≡ 1
    pub postable : All (IsPostable accounts) command.lines
    pub balanced : debit_total command.lines ≡ credit_total command.lines

  pub validate_post_command-IsAccepted :
      (closed : List String) (command : PostJournalCommand)
      → validate_post_command accounts closed command ≡ ok tt
      → IsAccepted closed command
  unfolding validate_post_command
  validate_post_command-IsAccepted closed command h =
      elim (Result-cases (fold_each (add_line accounts) (pos 0, pos 0) command.lines)) [
        | inr (e, failed) ↦ ground arith
        | inl (totals, added) ↦
            let (debits, credits, lines_postable) =
              fold-add_line (pos 0) (pos 0) command.lines added in
            let same : totals.0 ≡ totals.1 = ground (arith, eqb_ℤ_iff totals.0 totals.1) in
            record {
              period_open = ground arith;
              enough_lines = ground arith;
              one_currency = ground arith;
              postable = lines_postable;
              balanced =
                  cc (
                    zero-+ℤ (debit_total command.lines),
                    zero-+ℤ (credit_total command.lines),
                    same,
                  );
            }
      ]
