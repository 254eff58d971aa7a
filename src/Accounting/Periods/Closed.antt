-- ===== src/Accounting/Periods/Closed.antt =====
-- What `close_period` leaves behind, and what a closed period refuses.
use bms_gui.Prelude.{
  str_eq_refl, true-false, String, ◌≡◌, refl, sym, ◌∙◌, ap, subst, Bool, true, false, not, Option,
  List, [], ◌∷◌, ◌++◌, str_in, arith, inl, inr, if◌then◌else◌,
}
use bms_gui.Fields.{truthy}
use bms_gui.Json.{Payload}
use bms_gui.Dict.{Dict}
use bms_gui.Result.{ok-eq, Error, Result, ok, err, Result-cases}
use bms_gui.Exec.{pure, reads, gets, modify}
use bms_gui.Exec.Keeps.{Keeps}
use bms_gui.Exec.Outcome.{
  Triple, Triple-ok, Triple-then, Triple-bind, Anything, >>=-eq-ok, raise_if-ok, reads-err,
}
use bms_gui.Store.{FilePath, periods, wal, audit_records, business_events, Env, World, payloads}
use bms_gui.Store.Frame.{OnTable, Apart, store_keeps, uuid4_hex-Keeps}
use bms_gui.Store.Append.{append_record-adds}
use bms_gui.Accounting.Models.{TrialBalance, is_balanced, Account, PostJournalCommand}
use bms_gui.Accounting.Balances.{get_trial_balance}
use bms_gui.Accounting.Posting.{check_journal, post_journal}
use bms_gui.Accounting.Posting.Balanced.{check_journal-ok}
use bms_gui.Accounting.Port.{is_period_closed}
use bms_gui.Accounting.Periods.{
  add_closed, closed_periods_of, period_payload, write_period_closed, close_open_period,
  close_period,
}

-- A payload more never opens a period again.
add_closed-closed :
    (s : String) (closed : List String) (p : Payload)
    → str_in s closed ≡ true
    → str_in s (add_closed closed p) ≡ true
add_closed-closed s closed p h = ground arith

payload-closes :
    (period_id closed_at actor_id correlation_id : String) (balance : TrialBalance)
    → str_in period_id (
        closed_periods_of (period_payload period_id closed_at actor_id correlation_id balance ∷ []))
      ≡ true
unfolding period_payload
payload-closes period_id closed_at actor_id correlation_id balance = rw (str_eq_refl period_id)

-- The payload of a closed period closes it, when the file is read again.
closed_periods_of-append :
    (period_id closed_at actor_id correlation_id : String) (balance : TrialBalance)
    (ps : List Payload)
    → str_in period_id (
        closed_periods_of
          (ps ++ period_payload period_id closed_at actor_id correlation_id balance ∷ []))
      ≡ true
closed_periods_of-append period_id closed_at actor_id correlation_id balance [] =
    payload-closes period_id closed_at actor_id correlation_id balance
closed_periods_of-append period_id closed_at actor_id correlation_id balance (p ∷ ps) =
    add_closed-closed period_id
      (closed_periods_of
        (ps ++ period_payload period_id closed_at actor_id correlation_id balance ∷ []))
      p (closed_periods_of-append period_id closed_at actor_id correlation_id balance ps)

-- The file says that the period is closed.
abbrev pub OnFile : String → World → Type 0
OnFile period_id = OnTable periods (λ ps. str_in period_id (closed_periods_of ps) ≡ true)

module _ (env : Env) where
  write_period_closed-writes :
      (period_id actor_id : String) (given_at given_correlation : Option String)
      (balance : TrialBalance)
      → Triple
          (OnTable periods Anything)
          (write_period_closed env period_id actor_id given_at given_correlation balance)
          (λ _ w. OnFile period_id w × (is_period_closed period_id w ≡ true))
          Anything
  unfolding write_period_closed modify is_period_closed
  write_period_closed-writes period_id actor_id given_at given_correlation balance =
      Triple-then _ _ (search store_keeps) (λ _ _. tt)
        λ closed_at.
          Triple-then _ _ (search store_keeps) (λ _ _. tt)
            λ correlation_id.
              Triple-then _ _ (uuid4_hex-Keeps env) (λ _ _. tt)
                λ hex.
                  Triple-then _ _ (search (store_keeps, tt)) (λ _ _. tt)
                    λ _.
                      Triple-bind _ _ _
                        (append_record-adds env periods
                          {U = λ ps. str_in period_id (closed_periods_of ps) ≡ true}
                          (period_payload period_id closed_at actor_id correlation_id balance)
                          (λ ps _.
                            closed_periods_of-append period_id closed_at actor_id correlation_id
                              balance ps)
                          (λ _ _. tt) (λ _ _. tt) _ _ _ _ _ _)
                        λ _.
                          Triple-then _ _ (search (store_keeps, tt)) (λ _ _. tt)
                            λ _.
                              Triple-then _ _ (search (store_keeps, tt)) (λ _ _. tt)
                                λ _.
                                  Triple-then _ _ (search (store_keeps, tt)) (λ _ _. tt)
                                    λ _. record {
                                      at = λ w h.
                                          (record { holds = h.holds }, rw (str_eq_refl period_id));
                                    }

  -- What a call that returned says.
  pub record IsClosed (period_id : String) (w w' : World) : Type 0 where
    pub closed : is_period_closed period_id w' ≡ true
    pub on_file : str_in period_id (closed_periods_of (payloads periods w')) ≡ true
    pub trial_balance : TrialBalance
    pub found : get_trial_balance env period_id w ≡ ok trial_balance
    pub balanced : is_balanced trial_balance ≡ true

  not-false : (b : Bool) → not b ≡ false → b ≡ true
  not-false b h = ground arith

  close_open_period-IsClosed :
      (period_id actor_id : String) (closed_at correlation_id : Option String) (w : World)
      {w' : World}
      → close_open_period env period_id actor_id closed_at correlation_id w ≡ (ok tt, w')
      → IsClosed period_id w w'
  unfolding close_open_period reads
  close_open_period-IsClosed period_id actor_id closed_at correlation_id w h =
      let (t, read, h1) = >>=-eq-ok (reads (get_trial_balance env period_id)) _ w h in
      let (balanced, h2) = raise_if-ok (not (is_balanced t)) _ _ w h1 in
      let (on_file, in_memory) =
        Triple-ok _ w (write_period_closed-writes period_id actor_id closed_at correlation_id t)
          (record { holds = tt }) h2 in
      record {
        closed = in_memory;
        on_file = on_file.holds;
        trial_balance = t;
        found = read;
        balanced = not-false (is_balanced t) balanced;
      }

  pure-eq : (w w' : World) → pure tt w ≡ (ok tt, w') → w ≡ w'
  unfolding pure
  pure-eq w w' h = ap (λ (r : Result (Unit {0}) × World). r.1) h

  branch-closed :
      (already : Bool) (period_id actor_id : String) (closed_at correlation_id : Option String)
      (w : World) {w' : World}
      → is_period_closed period_id w ≡ already
      → (if already
            then pure tt
            else close_open_period env period_id actor_id closed_at correlation_id)
          w
        ≡ (ok tt, w')
      → is_period_closed period_id w' ≡ true
  branch-closed true period_id actor_id closed_at correlation_id w e k =
      subst (λ v. is_period_closed period_id v ≡ true) (pure-eq w _ k) e
  branch-closed false period_id actor_id closed_at correlation_id w e k =
      (close_open_period-IsClosed period_id actor_id closed_at correlation_id w k).closed

  branch-IsClosed :
      (already : Bool) (period_id actor_id : String) (closed_at correlation_id : Option String)
      (w : World) {w' : World}
      → already ≡ false
      → (if already
            then pure tt
            else close_open_period env period_id actor_id closed_at correlation_id)
          w
        ≡ (ok tt, w')
      → IsClosed period_id w w'
  branch-IsClosed true period_id actor_id closed_at correlation_id w e k = absurd (true-false e)
  branch-IsClosed false period_id actor_id closed_at correlation_id w e k =
      close_open_period-IsClosed period_id actor_id closed_at correlation_id w k

  -- A call that returned found the period closed, or closed it.
  close_period-branch :
      (period_id actor_id : String) (closed_at correlation_id : Option String) (w : World)
      {w' : World}
      → close_period env period_id actor_id closed_at correlation_id w ≡ (ok tt, w')
      → (if is_period_closed period_id w
            then pure tt
            else close_open_period env period_id actor_id closed_at correlation_id)
          w
        ≡ (ok tt, w')
  unfolding close_period gets is_period_closed
  close_period-branch period_id actor_id closed_at correlation_id w {w'} h =
      let (_, h1) = raise_if-ok (not (truthy period_id)) _ _ w h in
      let (already, found, h2) =
        >>=-eq-ok (gets (λ (w : World). str_in period_id w.closed_periods)) _ w h1 in
      subst
        (λ b.
          (if b then pure tt else close_open_period env period_id actor_id closed_at correlation_id)
            w
          ≡ (ok tt, w'))
        (sym (ok-eq found)) h2

  -- Where `close_period` returned, the period is closed.
  pub close_period-closed :
      (period_id actor_id : String) (closed_at correlation_id : Option String) (w : World)
      {w' : World}
      → close_period env period_id actor_id closed_at correlation_id w ≡ (ok tt, w')
      → is_period_closed period_id w' ≡ true
  close_period-closed period_id actor_id closed_at correlation_id w h =
      branch-closed (is_period_closed period_id w) period_id actor_id closed_at correlation_id w
        refl (close_period-branch period_id actor_id closed_at correlation_id w h)

  -- Where `close_period` returned for a period that was not closed, the trial balance of the
  -- period was found and balanced, the period is closed in memory, and the periods file says so
  -- when it is read again.
  pub close_period-IsClosed :
      (period_id actor_id : String) (closed_at correlation_id : Option String) (w : World)
      {w' : World}
      → is_period_closed period_id w ≡ false
      → close_period env period_id actor_id closed_at correlation_id w ≡ (ok tt, w')
      → IsClosed period_id w w'
  close_period-IsClosed period_id actor_id closed_at correlation_id w e h =
      branch-IsClosed (is_period_closed period_id w) period_id actor_id closed_at correlation_id w e
        (close_period-branch period_id actor_id closed_at correlation_id w h)

remember_closed-Keeps :
    {path : FilePath} {T : List Payload → Type 0} (period_id : String)
    → Keeps
        (OnTable path T)
        (modify (λ (w : World). record w { closed_periods = period_id ∷ w.closed_periods }))
unfolding modify
remember_closed-Keeps period_id = record { at = λ w h. record { holds = h.holds } }

-- Closing a period leaves every file alone that it does not write to.
pub close_period-Keeps :
    (env : Env) {path : FilePath} {T : List Payload → Type 0} (period_id actor_id : String)
    (closed_at correlation_id : Option String)
    → Apart wal path
    → Apart periods path
    → Apart audit_records path
    → Apart business_events path
    → Keeps (OnTable path T) (close_period env period_id actor_id closed_at correlation_id)
unfolding close_period close_open_period write_period_closed
close_period-Keeps env {T} period_id actor_id closed_at correlation_id a b c d =
    search (store_keeps, a, b, c, d, remember_closed-Keeps) depth 40

-- A journal for a period that is closed is refused with an error, and nothing is written.
pub post_journal-closed :
    (env : Env) (accounts : Dict String Account) (command : PostJournalCommand) (w : World)
    → is_period_closed command.period_id w ≡ true
    → (e : Error) × (post_journal env accounts command w ≡ (err e, w))
unfolding post_journal is_period_closed
post_journal-closed env accounts command w h =
    elim (Result-cases (check_journal env accounts command w)) [
      | inl (tt, passed) ↦
          absurd (true-false (sym h ∙ (check_journal-ok env accounts command w passed).period_open))
      | inr (e, failed) ↦ (e, reads-err (check_journal env accounts command) _ w failed)
    ]
