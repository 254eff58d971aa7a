-- ===== src/Recovery/Resolve/Recorded.antt =====
-- What `resolve_recovery_accounting_adjustment` has checked and written when it returns.
use bms_gui.Prelude.{
  String, ◌≡◌, refl, sym, ap, ◌∙◌, subst, Bool, false, not, Option, none, List, [], str_eq, eq_iff,
  arith,
}
use bms_gui.Json.{Payload}
use bms_gui.Result as R
use bms_gui.Result.{Result, ok, ok-eq, guard-ok, Error}
use bms_gui.Exec.{reads, lift}
use bms_gui.Exec.Outcome.{
  Triple, Triple-ok, Triple-then, Triple-bind, Triple-pure, Anything, >>=-eq-ok,
}
use bms_gui.Store.{wal, Env, World, utc_now, or_else}
use bms_gui.Store.Frame.{OnTable, store_keeps}
use bms_gui.Accounting.Models.{PostJournalCommand, JournalResult, baseline_chart_of_accounts}
use bms_gui.Accounting.Periods.{start_accounting}
use bms_gui.Accounting.Posting.{post_journal}
use bms_gui.Accounting.Posting.Written.{IsPosted, post_journal-IsPosted}
use bms_gui.Auth.Identity.{UserRecord, RoleAssignment}
use bms_gui.Facade.Commands.{validate_post_journal_command_payload}
use bms_gui.Recovery.Pending.{PendingRecoveryTransaction, pending_transactions, find_pending}
use bms_gui.Recovery.Pending.Finished.{Finished, Finished-none, append_wal_committed-Finished}
use bms_gui.Recovery.Reconcile.{require_arguments, authorize_reconciliation, require_pending}
use bms_gui.Recovery.Reconcile.Recorded.{require_pending-id}
use bms_gui.Recovery.Resolve.{
  RecoveryAccountingAdjustmentResult, check_records, check_adjustment_journal, plan_adjustment,
  write_adjustment, resolve_recovery_accounting_adjustment,
}

module _ (env : Env) (users : List UserRecord) (assignments : List RoleAssignment) where
  write_adjustment-Finished :
      (t : PendingRecoveryTransaction) (journal : JournalResult)
      (transaction_id actor_id reason created_at : String)
      → Triple
          (OnTable wal Anything)
          (write_adjustment env users assignments t journal transaction_id actor_id reason
            created_at)
          (λ result w.
            (result.correction_journal_id ≡ journal.journal_id) × Finished t.transaction_id w)
          Anything
  unfolding write_adjustment
  write_adjustment-Finished t journal transaction_id actor_id reason created_at =
      Triple-then _ _ (search (store_keeps, tt)) (λ _ _. tt)
        λ _.
          Triple-then _ _ (search (store_keeps, tt)) (λ _ _. tt)
            λ _.
              Triple-then _ _ (search (store_keeps, tt)) (λ _ _. tt)
                λ _.
                  Triple-bind _ _ _
                    (append_wal_committed-Finished env t.transaction_id created_at actor_id
                      t.correlation_id)
                    λ _. Triple-pure _ (λ w h. (refl, h))

  plan_adjustment-id :
      (id : String) (w : World) {t : PendingRecoveryTransaction}
      → plan_adjustment env users assignments id w ≡ ok t
      → t.transaction_id ≡ id
  unfolding plan_adjustment
  plan_adjustment-id id w h =
      let (found, there, h1) = R.>>=-eq-ok (require_pending env users assignments id w) _ h in
      let (_, e) = R.then-ok (check_records env users assignments id w) _ h1 in
      sym (ap (λ (t : PendingRecoveryTransaction). t.transaction_id) (ok-eq e))
      ∙ require_pending-id env users assignments id w there

  -- The journal of an adjustment.
  pub record IsAdjustmentJournal (transaction_id actor_id : String) (command : PostJournalCommand)
      : Type 0 where
    pub actor : command.actor_id ≡ actor_id
    pub source_module : command.source_module ≡ "recovery"
    pub source_document : command.source_document_id ≡ transaction_id

  same_text : (s t : String) → not (str_eq s t) ≡ false → s ≡ t
  same_text s t h = ground (arith, eq_iff s t)

  fail_if-ok : (b : Bool) (e : Error) → R.fail_if b e ≡ ok tt → b ≡ false
  fail_if-ok b e h = ground arith

  check_adjustment_journal-ok :
      (transaction_id actor_id : String) (command : PostJournalCommand)
      → check_adjustment_journal transaction_id actor_id command ≡ ok tt
      → IsAdjustmentJournal transaction_id actor_id command
  unfolding check_adjustment_journal
  check_adjustment_journal-ok transaction_id actor_id command h =
      let (actor, h1) = guard-ok (not (str_eq command.actor_id actor_id)) _ _ h in
      let (source, h2) = guard-ok (not (str_eq command.source_module "recovery")) _ _ h1 in
      record {
        actor = same_text command.actor_id actor_id actor;
        source_module = same_text command.source_module "recovery" source;
        source_document = same_text command.source_document_id transaction_id (fail_if-ok _ _ h2);
      }

  -- What a call that returned has checked and written.
  pub record IsAdjusted (transaction_id actor_id : String) (journal_payload : Payload) (w : World)
      (result : RecoveryAccountingAdjustmentResult) (w' : World) : Type 0 where
    pub authorized : authorize_reconciliation env users assignments actor_id w ≡ ok tt
    pub transaction : PendingRecoveryTransaction
    pub plan : plan_adjustment env users assignments transaction_id w ≡ ok transaction
    pub command : PostJournalCommand
    pub parsed : validate_post_journal_command_payload journal_payload ≡ ok command
    pub of_transaction : IsAdjustmentJournal transaction_id actor_id command
    pub journal : JournalResult
    -- The states before and after the journal.
    pub started : World
    pub loaded : started ≡ (start_accounting env [] w).1
    pub posted_at : World
    pub posted : IsPosted env baseline_chart_of_accounts command started journal posted_at
    pub correction : result.correction_journal_id ≡ journal.journal_id
    pub finished : Finished transaction_id w'

  -- Where `resolve_recovery_accounting_adjustment` returned: the actor was authorized, the
  -- transaction was pending with a record that waits for an adjustment, the journal is by the
  -- actor, from recovery and for the transaction, it was posted by the rules of `post_journal`
  -- with the closed periods loaded from the file, the result names it, and the log holds a
  -- committed record of the transaction.
  pub resolve_recovery_accounting_adjustment-IsAdjusted :
      (transaction_id actor_id reason : String) (journal_payload : Payload)
      (created_at : Option String) (w : World) {result : RecoveryAccountingAdjustmentResult}
      {w' : World}
      → resolve_recovery_accounting_adjustment env users assignments transaction_id actor_id reason
          journal_payload created_at w
        ≡ (ok result, w')
      → IsAdjusted transaction_id actor_id journal_payload w result w'
  unfolding resolve_recovery_accounting_adjustment reads lift
  resolve_recovery_accounting_adjustment-IsAdjusted transaction_id actor_id reason journal_payload
        created_at w {w'} h =
      let (_, _, h1) = >>=-eq-ok (lift (require_arguments transaction_id actor_id reason)) _ w h in
      let (_, passed, h2) =
        >>=-eq-ok (reads (authorize_reconciliation env users assignments actor_id)) _ w h1 in
      let (t, planned, h3) =
        >>=-eq-ok (reads (plan_adjustment env users assignments transaction_id)) _ w h2 in
      let (command, parsed, h4) =
        >>=-eq-ok (lift (validate_post_journal_command_payload journal_payload)) _ w h3 in
      let (_, checked, h5) =
        >>=-eq-ok (lift (check_adjustment_journal transaction_id actor_id command)) _ w h4 in
      let (_, _, h6) = >>=-eq-ok (start_accounting env []) _ w h5 in
      let started = (start_accounting env [] w).1 in
      let (journal, post, h7) =
        >>=-eq-ok (post_journal env baseline_chart_of_accounts command) _ started h6 in
      let posted_at = (post_journal env baseline_chart_of_accounts command started).1 in
      let (time, _, h8) = >>=-eq-ok (or_else env created_at (utc_now env)) _ posted_at h7 in
      let now = (or_else env created_at (utc_now env) posted_at).1 in
      let (correction, done) =
        Triple-ok _ now (write_adjustment-Finished t journal transaction_id actor_id reason time)
          (record { holds = tt }) h8 in
      record {
        authorized = passed;
        transaction = t;
        plan = planned;
        command = command;
        parsed = parsed;
        of_transaction = check_adjustment_journal-ok transaction_id actor_id command checked;
        journal = journal;
        started = started;
        loaded = refl;
        posted_at = posted_at;
        posted =
            post_journal-IsPosted env baseline_chart_of_accounts command started
              (λ i. (post i, posted_at));
        correction = correction;
        finished = subst (λ id. Finished id w') (plan_adjustment-id transaction_id w planned) done;
      }

  -- Where `resolve_recovery_accounting_adjustment` returned, its transaction is not among the
  -- pending ones that are found afterwards. Its id is not the one of malformed records, "unknown".
  pub resolve_recovery_accounting_adjustment-finished :
      (transaction_id actor_id reason : String) (journal_payload : Payload)
      (created_at : Option String) (w : World) {result : RecoveryAccountingAdjustmentResult}
      {w' : World} {pending : List PendingRecoveryTransaction}
      → resolve_recovery_accounting_adjustment env users assignments transaction_id actor_id reason
          journal_payload created_at w
        ≡ (ok result, w')
      → str_eq "unknown" transaction_id ≡ false
      → pending_transactions env w' ≡ ok pending
      → find_pending transaction_id pending ≡ none
  resolve_recovery_accounting_adjustment-finished transaction_id actor_id reason journal_payload
        created_at w {w'} h named listed =
      let done =
        resolve_recovery_accounting_adjustment-IsAdjusted transaction_id actor_id reason
          journal_payload created_at w h in
      Finished-none env transaction_id w' done.finished named listed
