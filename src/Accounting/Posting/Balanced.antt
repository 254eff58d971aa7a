-- ===== src/Accounting/Posting/Balanced.antt =====
-- The balance of the journal entries that `post_journal` writes.
use bms_gui.Prelude.{String, ◌≡◌, refl, some, All, All-append, ℤ}
use bms_gui.Dict.{Dict}
use bms_gui.Json.{Payload, int, get}
use bms_gui.Result.{ok, then-ok}
use bms_gui.Exec.{lift}
use bms_gui.Exec.Keeps.{Keeps, Keeps-bind, Keeps-lift, Keeps-bind-reads}
use bms_gui.Exec.Outcome.{Triple-both}
use bms_gui.Store.{journal_entries, Env, World, payloads}
use bms_gui.Store.Frame.{OnTable}
use bms_gui.Store.Append.{append_record-adds}
use bms_gui.Accounting.Models.{Account, PostJournalCommand}
use bms_gui.Accounting.Validation.{validate_post_command}
use bms_gui.Accounting.Validation.Accepted.{IsAccepted, validate_post_command-IsAccepted}
use bms_gui.Accounting.Posting.{
  entry_payload, first_currency, check_journal, append_entry, write_journal, post_journal,
}
use bms_gui.Accounting.Posting.Frame.{journal_keeps}

-- An entry with one amount for both totals.
pub record IsBalancedEntry (payload : Payload) : Type 0 where
  pub amount : ℤ
  pub debits : get "debit_total_minor" payload ≡ some (int amount)
  pub credits : get "credit_total_minor" payload ≡ some (int amount)

entry_payload-IsBalancedEntry :
    (command : PostJournalCommand) (debits credits : ℤ) (currency : String)
    → debits ≡ credits
    → IsBalancedEntry (entry_payload command debits credits currency)
unfolding entry_payload
entry_payload-IsBalancedEntry command debits credits currency e = record {
  amount = debits;
  debits = refl;
  credits = rw e;
}

-- All entries of the journal file are balanced.
abbrev pub Entries : World → Type 0
Entries = OnTable journal_entries (All IsBalancedEntry)

module _ (env : Env) (accounts : Dict String Account) where
  append_entry-Entries :
      (command : PostJournalCommand) (debits credits : ℤ) (currency : String)
      → debits ≡ credits
      → Keeps Entries (append_entry env accounts command debits credits currency)
  unfolding append_entry
  append_entry-Entries command debits credits currency e = record {
    at = λ w h.
        Triple-both (λ _. Entries) Entries _ w
          (append_record-adds env journal_entries (entry_payload command debits credits currency)
            (λ ps all.
              All-append IsBalancedEntry ps _ all
                (entry_payload-IsBalancedEntry command debits credits currency e, tt))
            (λ w' k. k) (λ w' k. k) _ _ _ _ _ _)
          (λ a w' k. k) h;
  }

  write_journal-Entries :
      (command : PostJournalCommand) (debits credits : ℤ) (currency : String)
      → debits ≡ credits
      → Keeps Entries (write_journal env accounts command debits credits currency)
  unfolding write_journal
  write_journal-Entries command debits credits currency e =
      search (journal_keeps, append_entry-Entries, tt) depth 30

  pub check_journal-ok :
      (command : PostJournalCommand) (w : World)
      → check_journal env accounts command w ≡ ok tt
      → IsAccepted accounts w.closed_periods command
  unfolding check_journal
  check_journal-ok command w h =
      validate_post_command-IsAccepted accounts w.closed_periods command
        (then-ok (validate_post_command accounts w.closed_periods command) _ h).0

  pub post_journal-Entries :
      (command : PostJournalCommand) → Keeps Entries (post_journal env accounts command)
  unfolding post_journal
  post_journal-Entries command =
      Keeps-bind-reads (check_journal env accounts command) _ λ w _ checked h.
        (Keeps-bind (lift (first_currency command.lines)) _ (Keeps-lift _) λ currency.
            write_journal-Entries command _ _ currency
              (check_journal-ok command w checked).balanced).at
          w h

  -- Whether it returns or raises, `post_journal` leaves only balanced entries in the journal, if
  -- only such were there before.
  pub post_journal-balanced :
      (command : PostJournalCommand) (w : World)
      → All IsBalancedEntry (payloads journal_entries w)
      → All IsBalancedEntry (payloads journal_entries (post_journal env accounts command w).1)
  post_journal-balanced command w h =
      ((post_journal-Entries command).at w (record { holds = h })).holds
