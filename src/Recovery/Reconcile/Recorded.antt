-- ===== src/Recovery/Reconcile/Recorded.antt =====
-- What `reconcile_recovery_transaction` has checked and written when it returns.
use bms_gui.Prelude.{
  String, ◌≡◌, refl, sym, ap, ◌∙◌, none-some, eq_iff, if_true, if_false, Bool-cases, subst, Bool,
  true, false, Option, none, some, inl, inr, List, [], ◌∷◌, ◌++◌, map, str_eq, arith, if◌then◌else◌,
}
use bms_gui.Fields.{◌&◌}
use bms_gui.Json.{Payload}
use bms_gui.Result.{Result, ok, ok-eq, guard-ok}
use bms_gui.Result as R
use bms_gui.Exec.{reads, lift}
use bms_gui.Exec.Keeps.{Keeps, keeps_rules}
use bms_gui.Exec.Outcome.{
  Triple, Triple-ok, Triple-then, Triple-bind, Triple-Keeps, Triple-pure, Anything, >>=-eq-ok,
}
use bms_gui.Store.{
  FilePath, wal, reconciliation_records, AppendRecord, Env, World, payloads, utc_now, or_else,
}
use bms_gui.Store.Frame.{Holds, store_keeps}
use bms_gui.Store.Append.{append_record-adds}
use bms_gui.Auth.Identity.{UserRecord, RoleAssignment}
use bms_gui.Recovery.Pending.{PendingRecoveryTransaction, pending_transactions, find_pending}
use bms_gui.Recovery.Pending.Finished.{Finished, Finished-none, append_wal_committed-Finished}
use bms_gui.Recovery.Reconcile.{
  RecoveryReconciliationDecision, is_resolving, RecoveryReconciliationResult, require_arguments,
  authorize_reconciliation, has_reconciliation_record, parse_reconciliation_decision,
  require_pending, plan_reconciliation, commit_if, reconciliation_payload, write_reconciliation,
  reconcile_recovery_transaction,
}

some_inj : {A : Type 0} {a b : A} → some a ≡ some b → a ≡ b
some_inj h = ground arith

module _ (env : Env) (users : List UserRecord) (assignments : List RoleAssignment) where
  -- The log after the last write: a committed record more, or the log as it was.
  abbrev pub Ending : Bool → String → List Payload → World → Type 0
  Ending resolved id log w = if resolved then Finished id w else Holds wal log w

  commit_if-Ending :
      (resolved : Bool) (t : PendingRecoveryTransaction) (created_at actor_id : String)
      (log : List Payload)
      → Triple
          (Holds wal log)
          (commit_if env users assignments resolved t created_at actor_id)
          (λ _. Ending resolved t.transaction_id log)
          Anything
  unfolding commit_if
  commit_if-Ending true t created_at actor_id log =
      append_wal_committed-Finished env t.transaction_id created_at actor_id t.correlation_id
  commit_if-Ending false t created_at actor_id log = Triple-pure tt (λ w h. h)

  commit_if-Keeps :
      (resolved : Bool) (t : PendingRecoveryTransaction) (created_at actor_id : String)
      (recorded : List Payload)
      → Keeps
          (Holds reconciliation_records recorded)
          (commit_if env users assignments resolved t created_at actor_id)
  unfolding commit_if
  commit_if-Keeps resolved t created_at actor_id recorded = search (store_keeps, tt)

  -- What the call returns.
  abbrev result_of :
      PendingRecoveryTransaction
      → RecoveryReconciliationDecision
      → String
      → RecoveryReconciliationResult
  result_of t decision transaction_id = record {
    reconciliation_id = "rec_" & transaction_id;
    transaction_id = t.transaction_id;
    decision = decision;
    resolved = is_resolving decision;
  }

  write_reconciliation-Ending :
      (t : PendingRecoveryTransaction) (decision : RecoveryReconciliationDecision)
      (transaction_id actor_id reason created_at : String) (log : List Payload)
      → Triple
          (Holds wal log)
          (write_reconciliation env users assignments t decision transaction_id actor_id reason
            created_at)
          (λ result w.
            (result_of t decision transaction_id ≡ result)
            × Ending (is_resolving decision) t.transaction_id log w)
          Anything
  unfolding write_reconciliation
  write_reconciliation-Ending t decision transaction_id actor_id reason created_at log =
      Triple-then _ _ (search (store_keeps, tt)) (λ _ _. tt)
        λ _.
          Triple-then _ _ (search (store_keeps, tt)) (λ _ _. tt)
            λ _.
              Triple-then _ _ (search (store_keeps, tt)) (λ _ _. tt)
                λ _.
                  Triple-bind _ _ _
                    (commit_if-Ending (is_resolving decision) t created_at actor_id log)
                    λ _. Triple-pure _ (λ w h. (refl, h))

  write_reconciliation-records :
      (t : PendingRecoveryTransaction) (decision : RecoveryReconciliationDecision)
      (transaction_id actor_id reason created_at : String) (recorded : List Payload)
      → Triple
          (Holds reconciliation_records recorded)
          (write_reconciliation env users assignments t decision transaction_id actor_id reason
            created_at)
          (λ _. Holds reconciliation_records (
            recorded
            ++ reconciliation_payload t decision transaction_id actor_id reason created_at ∷ []))
          Anything
  unfolding write_reconciliation
  write_reconciliation-records t decision transaction_id actor_id reason created_at recorded =
      Triple-bind _ _ _
        (append_record-adds env reconciliation_records
          (reconciliation_payload t decision transaction_id actor_id reason created_at)
          (λ qs e. rw e) (λ _ _. tt) (λ _ _. tt) _ _ _ _ _ _)
        λ _. Triple-Keeps _ (search (store_keeps, commit_if-Keeps, tt) depth 20) (λ _ _. tt)

  -- The clock writes no file.
  or_else-files :
      (given : Option String) (files : FilePath → List AppendRecord)
      → Keeps (λ w. w.tables ≡ files) (or_else env given (utc_now env))
  unfolding or_else utc_now
  or_else-files none files = record { at = λ w h. h }
  or_else-files (some s) files = search (keeps_rules, utc_now-files)
    where
      utc_now-files : Keeps (λ w. w.tables ≡ files) (utc_now env)
      utc_now-files = record { at = λ w h. h }

  later_or-id :
      (id : String) (first : PendingRecoveryTransaction) (later : Option PendingRecoveryTransaction)
      {t : PendingRecoveryTransaction}
      → (later ≡ some t → t.transaction_id ≡ id)
      → elim later [
        | some found ↦ some found
        | none ↦ if str_eq first.transaction_id id then some first else none
      ]
        ≡ some t
      → t.transaction_id ≡ id
  later_or-id id first (some found) ih h = ih h
  later_or-id id first none ih h = elim (Bool-cases (str_eq first.transaction_id id)) [
    | inl same ↦
        let e = some_inj (if_true (str_eq first.transaction_id id) _ _ same h) in
        sym (ap (λ (t : PendingRecoveryTransaction). t.transaction_id) e)
        ∙ (eq_iff first.transaction_id id).0 same
    | inr other ↦ absurd (none-some (if_false (str_eq first.transaction_id id) _ _ other h))
  ]

  find_pending-id :
      (id : String) (pending : List PendingRecoveryTransaction) {t : PendingRecoveryTransaction}
      → find_pending id pending ≡ some t
      → t.transaction_id ≡ id
  unfolding find_pending
  find_pending-id id [] h = absurd (none-some h)
  find_pending-id id (first ∷ rest) h =
      later_or-id id first (find_pending id rest) (find_pending-id id rest) h

  pub require_pending-id :
      (id : String) (w : World) {t : PendingRecoveryTransaction}
      → require_pending env users assignments id w ≡ ok t
      → t.transaction_id ≡ id
  unfolding require_pending
  require_pending-id id w h =
      let (pending, _, h1) = R.>>=-eq-ok (pending_transactions env w) _ h in
      let (found, there, h2) = R.found-ok (find_pending id pending) _ _ h1 in
      sym (ap (λ (t : PendingRecoveryTransaction). t.transaction_id) (ok-eq h2))
      ∙ find_pending-id id pending there

  plan_reconciliation-id :
      (id : String) (w : World) {t : PendingRecoveryTransaction}
      → plan_reconciliation env users assignments id w ≡ ok t
      → t.transaction_id ≡ id
  unfolding plan_reconciliation
  plan_reconciliation-id id w h =
      let (found, there, h1) = R.>>=-eq-ok (require_pending env users assignments id w) _ h in
      let (recorded, _, h2) =
        R.>>=-eq-ok (has_reconciliation_record env users assignments id w) _ h1 in
      let (_, e) = guard-ok recorded _ _ h2 in
      sym (ap (λ (t : PendingRecoveryTransaction). t.transaction_id) (ok-eq e))
      ∙ require_pending-id id w there

  files-Holds :
      (path : FilePath) (w now : World) → now.tables ≡ w.tables → Holds path (payloads path w) now
  files-Holds path w now e = record {
    holds = ap (λ files. map (λ (r : AppendRecord). r.payload) (files path)) e;
  }

  -- What a call that returned has checked and written.
  pub record IsSettled (transaction_id decision actor_id reason : String) (w : World)
      (result : RecoveryReconciliationResult) (w' : World) : Type 0 where
    pub authorized : authorize_reconciliation env users assignments actor_id w ≡ ok tt
    pub decided : parse_reconciliation_decision decision ≡ ok result.decision
    pub resolved : result.resolved ≡ is_resolving result.decision
    -- The state when the clock has been asked.
    pub read_at : World
    pub same_files : read_at.tables ≡ w.tables
    pub transaction : PendingRecoveryTransaction
    pub plan : plan_reconciliation env users assignments transaction_id read_at ≡ ok transaction
    pub of_transaction : transaction.transaction_id ≡ transaction_id
    pub time : String
    pub recorded :
        payloads reconciliation_records w'
        ≡ payloads reconciliation_records w
          ++ reconciliation_payload transaction result.decision transaction_id actor_id reason time
            ∷ []
    pub log : Ending result.resolved transaction_id (payloads wal w) w'

  -- The writes, after the checks.
  write_reconciliation-IsSettled :
      (transaction_id decision actor_id reason time : String) (w now : World)
      (parsed : RecoveryReconciliationDecision) (t : PendingRecoveryTransaction)
      {result : RecoveryReconciliationResult} {w' : World}
      → authorize_reconciliation env users assignments actor_id w ≡ ok tt
      → parse_reconciliation_decision decision ≡ ok parsed
      → now.tables ≡ w.tables
      → plan_reconciliation env users assignments transaction_id now ≡ ok t
      → write_reconciliation env users assignments t parsed transaction_id actor_id reason time now
        ≡ (ok result, w')
      → IsSettled transaction_id decision actor_id reason w result w'
  write_reconciliation-IsSettled transaction_id decision actor_id reason time w now parsed t passed
        decided same planned h =
      let id_eq = plan_reconciliation-id transaction_id now planned in
      let (returned, ending) =
        Triple-ok _ now
          (write_reconciliation-Ending t parsed transaction_id actor_id reason time
            (payloads wal w))
          (files-Holds wal w now same) h in
      record {
        authorized = passed;
        decided = rw (sym returned) decided;
        resolved = rw (sym returned);
        read_at = now;
        same_files = same;
        transaction = t;
        plan = planned;
        of_transaction = id_eq;
        time = time;
        recorded = rw (sym returned) (
            (Triple-ok _ now
              (write_reconciliation-records t parsed transaction_id actor_id reason time
                (payloads reconciliation_records w))
              (files-Holds reconciliation_records w now same) h).holds);
        log = rw (sym returned, sym id_eq) ending;
      }

  -- Where `reconcile_recovery_transaction` returned: the actor was authorized, the decision is one
  -- of the known ones, the transaction was pending and had no reconciliation record, the file of
  -- the reconciliation records has grown by exactly the record of the decision, and the log holds
  -- a committed record of the transaction if the decision resolves it, and is as it was otherwise.
  pub reconcile_recovery_transaction-IsSettled :
      (transaction_id decision actor_id reason : String) (created_at : Option String) (w : World)
      {result : RecoveryReconciliationResult} {w' : World}
      → reconcile_recovery_transaction env users assignments transaction_id decision actor_id reason
          created_at w
        ≡ (ok result, w')
      → IsSettled transaction_id decision actor_id reason w result w'
  unfolding reconcile_recovery_transaction reads lift
  reconcile_recovery_transaction-IsSettled transaction_id decision actor_id reason created_at w h =
      let (_, _, h1) = >>=-eq-ok (lift (require_arguments transaction_id actor_id reason)) _ w h in
      let (_, passed, h2) =
        >>=-eq-ok (reads (authorize_reconciliation env users assignments actor_id)) _ w h1 in
      let (parsed, decided, h3) =
        >>=-eq-ok (lift (parse_reconciliation_decision decision)) _ w h2 in
      let (time, _, h4) = >>=-eq-ok (or_else env created_at (utc_now env)) _ w h3 in
      let now = (or_else env created_at (utc_now env) w).1 in
      let same = (or_else-files created_at w.tables).at w refl in
      let (t, planned, h5) =
        >>=-eq-ok (reads (plan_reconciliation env users assignments transaction_id)) _ now h4 in
      write_reconciliation-IsSettled transaction_id decision actor_id reason time w now parsed t
        passed decided same planned h5

  -- Where `reconcile_recovery_transaction` returned and resolved a transaction, the transaction is
  -- not among the pending ones that are found afterwards. Its id is not the one of malformed
  -- records, "unknown".
  pub reconcile_recovery_transaction-finished :
      (transaction_id decision actor_id reason : String) (created_at : Option String) (w : World)
      {result : RecoveryReconciliationResult} {w' : World}
      {pending : List PendingRecoveryTransaction}
      → reconcile_recovery_transaction env users assignments transaction_id decision actor_id reason
          created_at w
        ≡ (ok result, w')
      → result.resolved ≡ true
      → str_eq "unknown" transaction_id ≡ false
      → pending_transactions env w' ≡ ok pending
      → find_pending transaction_id pending ≡ none
  reconcile_recovery_transaction-finished transaction_id decision actor_id reason created_at w {w'}
        h resolved named listed =
      let done =
        reconcile_recovery_transaction-IsSettled transaction_id decision actor_id reason created_at
          w h in
      Finished-none env transaction_id w'
        (subst (λ b. Ending b transaction_id (payloads wal w) w') resolved done.log) named listed
