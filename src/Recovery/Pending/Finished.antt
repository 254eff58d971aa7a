-- ===== src/Recovery/Pending/Finished.antt =====
-- A transaction with a committed record is no longer pending.
use bms_gui.Prelude.{
  str_eq_refl, String, ◌≡◌, refl, sym, ◌∙◌, ap, subst, Bool, true, false, not, ◌&&◌, Option, none,
  some, List, [], ◌∷◌, ◌++◌, str_eq, str_in, inl, inr, Bool-cases, All, All-append, arith,
  true-false, eq_iff, if_true, if_false,
}
use bms_gui.Json.{str, obj, Payload, nothing, dict, get, is_text, as_text}
use bms_gui.Result.{ok, ok-eq, >>=-eq-ok}
use bms_gui.Exec.Outcome.{Triple, Triple-bind, Triple-pure, Anything}
use bms_gui.Store.{wal, Env, World, AppendRecord, append_wal_record, append_wal_committed}
use bms_gui.Store.Frame.{OnTable}
use bms_gui.Store.Append.{core_append-adds}
use bms_gui.Recovery.Effects.{durable_side_effects}
use bms_gui.Recovery.Pending.{
  PendingRecoveryTransaction, as_obj, committed_ids, is_committed, read_wal_envelopes,
  committed_transaction_ids, pending_transaction, pending_record, pending_records,
  pending_transactions, find_pending,
}

-- The log holds a committed record of the transaction.
abbrev pub Finished : String → World → Type 0
Finished id = OnTable wal (λ log. str_in id (committed_ids log) ≡ true)

-- A payload more in front.
committed_ids-cons :
    (id : String) (payload : Payload) (log : List Payload)
    → str_in id (committed_ids log) ≡ true
    → str_in id (committed_ids (payload ∷ log)) ≡ true
unfolding committed_ids
committed_ids-cons id payload log h = ground arith

committed_ids-append :
    (id : String) (log : List Payload) (payload : Payload)
    → str_in id (committed_ids (payload ∷ [])) ≡ true
    → str_in id (committed_ids (log ++ payload ∷ [])) ≡ true
committed_ids-append id [] payload h = h
committed_ids-append id (first ∷ log) payload h =
    committed_ids-cons id first (log ++ payload ∷ []) (committed_ids-append id log payload h)

committed_payload : String → Payload
committed_payload id =
    dict (("transaction_id", str id) ∷ ("state", str "committed") ∷ ("payload", obj nothing) ∷ [])

committed_payload-commits :
    (id : String) → str_in id (committed_ids (committed_payload id ∷ [])) ≡ true
unfolding committed_ids committed_payload
committed_payload-commits id = rw (str_eq_refl id)

module _ (env : Env) where
  pub append_wal_committed-Finished :
      {T : List Payload → Type 0} (id created_at actor_id correlation_id : String)
      → Triple
          (OnTable wal T)
          (append_wal_committed env id created_at actor_id correlation_id)
          (λ _. Finished id)
          Anything
  unfolding append_wal_committed append_wal_record committed_payload
  append_wal_committed-Finished id created_at actor_id correlation_id =
      Triple-bind _ _ _
        (core_append-adds env wal {U = λ log. str_in id (committed_ids log) ≡ true}
          (committed_payload id)
          (λ log _.
            committed_ids-append id log (committed_payload id) (committed_payload-commits id))
          (λ _ _. tt) (λ _ _. tt) _ refl)
        λ _. Triple-pure tt (λ w h. h)

  -- Another transaction.
  abbrev pub NotOf : String → PendingRecoveryTransaction → Type 0
  NotOf id t = str_eq t.transaction_id id ≡ false

  -- An id that is in a list and one that is not differ.
  not_in-ne :
      (found id : String) (committed : List String)
      → str_in found committed ≡ false
      → str_in id committed ≡ true
      → str_eq found id ≡ false
  not_in-ne found id committed h done = elim (Bool-cases (str_eq found id)) [
    | inl same ↦
        absurd (
          true-false (sym done ∙ ap (λ s. str_in s committed) (sym ((eq_iff found id).0 same)) ∙ h))
    | inr other ↦ other
  ]

  NotOf-eq : (id : String) (s t : PendingRecoveryTransaction) → s ≡ t → NotOf id s → NotOf id t
  NotOf-eq id s t e h = subst (NotOf id) e h

  pending_transaction-NotOf :
      (w : World) (r : AppendRecord) (found : Option String) (payload : Option Payload)
      (committed : List String) (id : String) {t : PendingRecoveryTransaction}
      → is_committed committed found ≡ false
      → str_in id committed ≡ true
      → str_eq "unknown" id ≡ false
      → pending_transaction env w r found payload ≡ ok t
      → NotOf id t
  unfolding pending_transaction
  pending_transaction-NotOf w r (some found) (some payload) committed id fresh done named h =
      let (effects, _, e) = >>=-eq-ok (durable_side_effects env payload w) _ h in
      NotOf-eq id _ _ (ok-eq e) (not_in-ne found id committed fresh done)
  pending_transaction-NotOf w r (some found) none committed id fresh done named h =
      NotOf-eq id _ _ (ok-eq h) named
  pending_transaction-NotOf w r none payload committed id fresh done named h =
      NotOf-eq id _ _ (ok-eq h) named

  and_not : (a b : Bool) → (a && not b) ≡ true → b ≡ false
  and_not a b h = ground arith

  pending_record-NotOf :
      (committed : List String) (w : World) (r : AppendRecord) (id : String)
      {found : List PendingRecoveryTransaction}
      → str_in id committed ≡ true
      → str_eq "unknown" id ≡ false
      → pending_record env committed w r ≡ ok found
      → All (NotOf id) found
  unfolding pending_record
  pending_record-NotOf committed w r id done named h =
      let given = as_text (get "transaction_id" r.payload) in
      let waiting =
        is_text (get "state" r.payload) "pending" && not (is_committed committed given) in
      elim (Bool-cases waiting) [
        | inl kept ↦
            let (t, read, e) =
              >>=-eq-ok (pending_transaction env w r given (as_obj (get "payload" r.payload))) _
                (if_true waiting _ _ kept h) in
            subst (All (NotOf id)) (ok-eq e) (
              pending_transaction-NotOf w r given _ committed id (and_not _ _ kept) done named read,
              tt,
            )
        | inr passed ↦ subst (All (NotOf id)) (ok-eq (if_false waiting _ _ passed h)) tt
      ]

  pub pending_records-NotOf :
      (committed : List String) (w : World) (log : List AppendRecord) (id : String)
      {pending : List PendingRecoveryTransaction}
      → str_in id committed ≡ true
      → str_eq "unknown" id ≡ false
      → pending_records env committed w log ≡ ok pending
      → All (NotOf id) pending
  unfolding pending_records
  pending_records-NotOf committed w [] id done named h = subst (All (NotOf id)) (ok-eq h) tt
  pending_records-NotOf committed w (r ∷ log) id done named h =
      let (found, read, h1) = >>=-eq-ok (pending_record env committed w r) _ h in
      let (others, rest, e) = >>=-eq-ok (pending_records env committed w log) _ h1 in
      subst (All (NotOf id)) (ok-eq e) (
        All-append (NotOf id) found others (pending_record-NotOf committed w r id done named read)
          (pending_records-NotOf committed w log id done named rest))

  find_pending-NotOf :
      (id : String) (pending : List PendingRecoveryTransaction)
      → All (NotOf id) pending
      → find_pending id pending ≡ none
  unfolding find_pending
  find_pending-NotOf id [] h = refl
  find_pending-NotOf id (t ∷ rest) h = rw (find_pending-NotOf id rest h.1, h.0)

  read_wal_envelopes-ok :
      (w : World) {log : List AppendRecord} → read_wal_envelopes env w ≡ ok log → w.tables wal ≡ log
  unfolding read_wal_envelopes
  read_wal_envelopes-ok w h = ground arith

  pub Finished-none :
      (id : String) (w : World) {pending : List PendingRecoveryTransaction}
      → Finished id w
      → str_eq "unknown" id ≡ false
      → pending_transactions env w ≡ ok pending
      → find_pending id pending ≡ none
  unfolding pending_transactions committed_transaction_ids
  Finished-none id w {pending} done named h =
      let (committed, read, h1) = >>=-eq-ok (committed_transaction_ids env w) _ h in
      let (log, found, e) = >>=-eq-ok (read_wal_envelopes env w) _ read in
      let (again, _, h2) = >>=-eq-ok (read_wal_envelopes env w) _ h1 in
      find_pending-NotOf id pending (
        pending_records-NotOf committed w again id
          (rw (sym (ok-eq e), sym (read_wal_envelopes-ok w found)) done.holds) named h2)
