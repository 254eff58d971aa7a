-- ===== src/Accounting/Posting/Frame.antt =====
-- What `post_journal` leaves alone.
use bms_gui.Prelude.{ℕ, String, List, ℤ}
use bms_gui.Dict.{Dict}
use bms_gui.Json.{Payload}
use bms_gui.Exec.{for_each}
use bms_gui.Exec.Keeps.{Keeps, Keeps-for_each}
use bms_gui.Store.{
  FilePath, wal, business_events, journal_entries, journal_lines, audit_records, Env,
}
use bms_gui.Store.Frame.{OnTable, Apart, store_keeps, uuid4_hex-Keeps}
use bms_gui.Accounting.Models.{Account, JournalLine, PostJournalCommand}
use bms_gui.Accounting.Posting.{
  append_entry, append_line, append_journal_audit, append_journal_event, write_journal,
  post_journal,
}

-- The files that `post_journal` writes to.
pub record Untouched (path : FilePath) : Type 0 where
  pub not_wal : Apart wal path
  pub not_entries : Apart journal_entries path
  pub not_lines : Apart journal_lines path
  pub not_audit : Apart audit_records path
  pub not_events : Apart business_events path

module _ (env : Env) (accounts : Dict String Account) {path : FilePath}
    {T : List Payload → Type 0} where
  pub append_entry-Keeps :
      (command : PostJournalCommand) (debits credits : ℤ) (currency : String)
      → Apart journal_entries path
      → Keeps (OnTable path T) (append_entry env accounts command debits credits currency)
  unfolding append_entry
  append_entry-Keeps command debits credits currency a = search store_keeps

  pub append_line-Keeps :
      (command : PostJournalCommand) (line : ℕ × JournalLine)
      → Apart journal_lines path
      → Keeps (OnTable path T) (append_line env accounts command line)
  unfolding append_line
  append_line-Keeps command line a = search store_keeps

  pub append_lines-Keeps :
      (command : PostJournalCommand) (lines : List (ℕ × JournalLine))
      → Apart journal_lines path
      → Keeps (OnTable path T) (for_each lines (append_line env accounts command))
  append_lines-Keeps command lines a =
      Keeps-for_each lines _ (λ line. append_line-Keeps command line a)

  pub append_journal_audit-Keeps :
      (command : PostJournalCommand) (debits credits : ℤ) (currency : String)
      → Apart audit_records path
      → Keeps (OnTable path T) (append_journal_audit env accounts command debits credits currency)
  unfolding append_journal_audit
  append_journal_audit-Keeps command debits credits currency a = search store_keeps

  pub append_journal_event-Keeps :
      (command : PostJournalCommand) (debits credits : ℤ) (currency : String)
      → Apart business_events path
      → Keeps (OnTable path T) (append_journal_event env accounts command debits credits currency)
  unfolding append_journal_event
  append_journal_event-Keeps command debits credits currency a = search store_keeps

  pub ruleset journal_keeps =
      (store_keeps, append_lines-Keeps, append_journal_audit-Keeps, append_journal_event-Keeps)

  pub post_journal-Keeps :
      (command : PostJournalCommand)
      → Untouched path
      → Keeps (OnTable path T) (post_journal env accounts command)
  unfolding post_journal write_journal
  post_journal-Keeps command u =
      search
        (
          journal_keeps, append_entry-Keeps, u.not_wal, u.not_entries, u.not_lines, u.not_audit,
          u.not_events,
        )
        depth 30
