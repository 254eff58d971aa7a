-- ===== src/Accounting/Posting/Written.antt =====
-- What `post_journal` has checked and written when it returns.
use bms_gui.Prelude.{ℕ, String, false, ◌≡◌, refl, sym, ◌∙◌, subst, List, [], ◌∷◌, ◌++◌, map, All, ℤ}
use mathlib.Core.List.{append_assoc, append-nil}
use bms_gui.Dict.{Dict}
use bms_gui.Fields.{enumerate}
use bms_gui.Json.{Payload, get, is_text}
use bms_gui.Result as R
use bms_gui.Result.{check_each-ok, Result, ok, err, then-ok}
use bms_gui.Exec.{reads, lift, for_each}
use bms_gui.Exec.Outcome.{
  Anything-Keeps, Triple, Triple-ok, Triple-then, Triple-bind, Triple-Keeps, Triple-pure, Anything,
  >>=-eq-ok,
}
use bms_gui.Store.{journal_entries, journal_lines, Env, World, payloads, read_payloads}
use bms_gui.Store.Frame.{read_payloads-ok, Holds, store_keeps, uuid4_hex-Keeps}
use bms_gui.Store.Append.{append_record-adds}
use bms_gui.Accounting.Models.{Account, JournalLine, PostJournalCommand, JournalResult}
use bms_gui.Accounting.Validation.{
  validate_post_command, reject_duplicate_journal, debit_total, credit_total,
}
use bms_gui.Accounting.Validation.Accepted.{IsAccepted, validate_post_command-IsAccepted}
use bms_gui.Accounting.Posting.{
  entry_payload, line_payload, first_currency, check_journal, append_entry, append_line,
  write_journal, post_journal,
}
use bms_gui.Accounting.Posting.Frame.{append_entry-Keeps, journal_keeps}

abbrev journal_line_payloads : PostJournalCommand → List Payload
journal_line_payloads command = map (line_payload command) (enumerate 1 command.lines)

module _ (env : Env) (accounts : Dict String Account) where
  append_line-adds :
      (command : PostJournalCommand) (line : ℕ × JournalLine) (ps : List Payload)
      → Triple
          (Holds journal_lines ps)
          (append_line env accounts command line)
          (λ _. Holds journal_lines (ps ++ line_payload command line ∷ []))
          Anything
  unfolding append_line
  append_line-adds command line ps =
      Triple-bind _ _ _
        (append_record-adds env journal_lines (line_payload command line) (λ qs e. rw e) (λ _ _. tt)
          (λ _ _. tt) _ _ _ _ _ _)
        λ _. Triple-pure tt (λ w h. h)

  append_lines-adds :
      (command : PostJournalCommand) (lines : List (ℕ × JournalLine)) (ps : List Payload)
      → Triple
          (Holds journal_lines ps)
          (for_each lines (append_line env accounts command))
          (λ _. Holds journal_lines (ps ++ map (line_payload command) lines))
          Anything
  unfolding for_each
  append_lines-adds command [] ps =
      Triple-pure tt (λ w h. record { holds = h.holds ∙ sym (append-nil ps) })
  append_lines-adds command (line ∷ lines) ps =
      Triple-bind _ _ _ (append_line-adds command line ps) λ _.
        subst
          (λ qs.
            Triple (Holds journal_lines (ps ++ line_payload command line ∷ []))
              (for_each lines (append_line env accounts command)) (λ _. Holds journal_lines qs)
              Anything)
          (append_assoc ps (line_payload command line ∷ []) (map (line_payload command) lines))
          (append_lines-adds command lines (ps ++ line_payload command line ∷ []))

  write_journal-lines :
      (command : PostJournalCommand) (debits credits : ℤ) (currency : String) (ps : List Payload)
      → Triple
          (Holds journal_lines ps)
          (write_journal env accounts command debits credits currency)
          (λ _. Holds journal_lines (ps ++ journal_line_payloads command))
          Anything
  unfolding write_journal
  write_journal-lines command debits credits currency ps =
      Triple-then _ _ (uuid4_hex-Keeps env) (λ _ _. tt)
        λ hex.
          Triple-then _ _ (search (store_keeps, tt)) (λ _ _. tt)
            λ _.
              Triple-then _ _ (append_entry-Keeps env accounts command debits credits currency tt)
                (λ _ _. tt)
                λ _.
                  Triple-bind _ _ _ (append_lines-adds command (enumerate 1 command.lines) ps)
                    λ _. Triple-Keeps _ (search (journal_keeps, tt) depth 20) (λ _ _. tt)

  write_journal-entries :
      (command : PostJournalCommand) (debits credits : ℤ) (currency : String) (ps : List Payload)
      → Triple
          (Holds journal_entries ps)
          (write_journal env accounts command debits credits currency)
          (λ _. Holds journal_entries (ps ++ entry_payload command debits credits currency ∷ []))
          Anything
  unfolding write_journal append_entry
  write_journal-entries command debits credits currency ps =
      Triple-then _ _ (uuid4_hex-Keeps env) (λ _ _. tt)
        λ hex.
          Triple-then _ _ (search (store_keeps, tt)) (λ _ _. tt)
            λ _.
              Triple-bind _ _ _
                (append_record-adds env journal_entries
                  (entry_payload command debits credits currency) (λ qs e. rw e) (λ _ _. tt)
                  (λ _ _. tt) _ _ _ _ _ _)
                λ _. Triple-Keeps _ (search (journal_keeps, tt) depth 20) (λ _ _. tt)

  -- A predicate of every state is kept.
  write_journal-result :
      (command : PostJournalCommand) (debits credits : ℤ) (currency : String)
      → Triple Anything
          (write_journal env accounts command debits credits currency)
          (λ result _. result ≡ record {
            journal_id = command.journal_id;
            debit_total_minor = debits;
            credit_total_minor = credits;
            currency = currency;
          })
          Anything
  unfolding write_journal
  write_journal-result command debits credits currency =
      Triple-then _ _ (Anything-Keeps _) (λ _ _. tt)
        λ _.
          Triple-then _ _ (Anything-Keeps _) (λ _ _. tt)
            λ _.
              Triple-then _ _ (Anything-Keeps _) (λ _ _. tt)
                λ _.
                  Triple-then _ _ (Anything-Keeps _) (λ _ _. tt)
                    λ _.
                      Triple-then _ _ (Anything-Keeps _) (λ _ _. tt)
                        λ _.
                          Triple-then _ _ (Anything-Keeps _) (λ _ _. tt)
                            λ _.
                              Triple-then _ _ (Anything-Keeps _) (λ _ _. tt)
                                λ _. Triple-pure _ (λ _ _. refl)

  -- What a call that returned has checked and written.
  pub record IsPosted (command : PostJournalCommand) (w : World) (result : JournalResult)
      (w' : World) : Type 0 where
    pub accepted : IsAccepted accounts w.closed_periods command
    pub new_journal :
        All
          (λ p. is_text (get "journal_id" p) command.journal_id ≡ false)
          (payloads journal_entries w)
    pub entries :
        payloads journal_entries w'
        ≡ payloads journal_entries w
          ++ entry_payload command result.debit_total_minor result.credit_total_minor
              result.currency
            ∷ []
    pub lines :
        payloads journal_lines w' ≡ payloads journal_lines w ++ journal_line_payloads command
    pub debits : result.debit_total_minor ≡ debit_total command.lines
    pub credits : result.credit_total_minor ≡ credit_total command.lines

  -- Where `post_journal` returned: the command was accepted (an open period, two lines or more,
  -- one currency, lines on active accounts with one positive amount each, equal totals), no entry
  -- had its journal id, and the journal files have grown by exactly the entry of the returned
  -- totals and one record for each line in order.
  pub post_journal-IsPosted :
      (command : PostJournalCommand) (w : World) {result : JournalResult} {w' : World}
      → post_journal env accounts command w ≡ (ok result, w')
      → IsPosted command w result w'
  unfolding post_journal check_journal reads lift reject_duplicate_journal
  post_journal-IsPosted command w h =
      let (_, passed, h1) = >>=-eq-ok (reads (check_journal env accounts command)) _ w h in
      let (currency, first, h2) = >>=-eq-ok (lift (first_currency command.lines)) _ w h1 in
      let (valid, h3) =
        then-ok (validate_post_command accounts w.closed_periods command) _ passed in
      let (entries, found, fresh) = R.>>=-eq-ok (read_payloads env journal_entries w) _ h3 in
      let debits = debit_total command.lines in
      let credits = credit_total command.lines in
      let same = Triple-ok _ w (write_journal-result command debits credits currency) tt h2 in
      record {
        accepted = validate_post_command-IsAccepted accounts w.closed_periods command valid;
        new_journal =
            rw (read_payloads-ok env journal_entries w found) (check_each-ok _ _ entries fresh);
        entries = rw same (
            (Triple-ok _ w
              (write_journal-entries command debits credits currency (payloads journal_entries w))
              (record { holds = refl }) h2).holds);
        lines =
            (Triple-ok _ w
              (write_journal-lines command debits credits currency (payloads journal_lines w))
              (record { holds = refl }) h2).holds;
        debits = rw same;
        credits = rw same;
      }
