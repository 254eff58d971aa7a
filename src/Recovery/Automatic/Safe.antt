-- ===== src/Recovery/Automatic/Safe.antt =====
-- When `recover_application_storage` rolls the log back, and what it leaves.
use bms_gui.Prelude.{
  String, ◌≡◌, refl, sym, ap, subst, inl, inr, Bool, true, false, not, Option, List, is_empty, All,
  [], ◌∷◌, ◌∙◌, arith, Bool-cases, if◌then◌else◌,
}
use bms_gui.Result.{Result, ok, ok-eq}
use bms_gui.Exec.{pure, raise, reads}
use bms_gui.Exec.Outcome.{>>=-eq-ok, raise_if-ok}
use bms_gui.Store.{FilePath, wal, path_eq, Env, World, AppendRecord}
use bms_gui.Backup.Files.{Content, Location}
use bms_gui.Bootstrap.{DataRoot}
use bms_gui.Bootstrap.Initialized.{IsInitialized, with_store-eq}
use bms_gui.Recovery.Startup.{
  RecoveryEnv, StartupState, healthy, recovery_required, protected_mode, StartupHealth, is_healthy,
  inspect, recover_wal_startup,
}
use bms_gui.Recovery.Pending.{PendingRecoveryTransaction, pending_transactions}
use bms_gui.Recovery.Automatic.{
  ApplicationRecoveryResult, unsafe_transactions, recover_healthy, recover_by_state,
  recover_unfinished, recover_store, recover_application_storage,
}

pub not-false : (b : Bool) → not b ≡ false → b ≡ true
not-false b h = ground arith

pub healthy_state : (s : StartupState) → is_healthy s ≡ true → s ≡ healthy
healthy_state healthy h = refl
healthy_state recovery_required h = cc
healthy_state protected_mode h = cc

-- None is left out where none is unsafe.
All-safe :
    (pending : List PendingRecoveryTransaction)
    → is_empty (unsafe_transactions pending) ≡ true
    → All (λ (t : PendingRecoveryTransaction). is_empty t.side_effects ≡ true) pending
unfolding unsafe_transactions
All-safe [] h = tt
All-safe (t ∷ rest) h = elim (Bool-cases (is_empty t.side_effects)) [
  | inl safe ↦ (safe, All-safe rest (if_true-empty (is_empty t.side_effects) _ _ safe h))
  | inr unsafe ↦ cc
]
  where
    if_true-empty :
        (b : Bool) (x y : List PendingRecoveryTransaction)
        → b ≡ true
        → is_empty (if b then x else y) ≡ true
        → is_empty x ≡ true
    if_true-empty b x y h k = ap (λ c. is_empty (if c then x else y)) (sym h) ∙ k

module _ (env : Env) (core : RecoveryEnv) where
  -- Storage that may be recovered, and its state afterwards: it was healthy, or no transaction
  -- had left a durable record and it is healthy afterwards.
  pub data MayRecover (w : World) : StartupState → StartupState → Type 0 where
    is_clean : (after : StartupState) → MayRecover w healthy after
    has_no_effects :
        (pending : List PendingRecoveryTransaction)
        → pending_transactions env w ≡ ok pending
        → All (λ (t : PendingRecoveryTransaction). is_empty t.side_effects ≡ true) pending
        → MayRecover w recovery_required healthy

  -- The files after the core has recovered the log.
  abbrev pub log_after : Option String → World → List AppendRecord
  log_after snapshot w = (core.recover_startup snapshot (w.tables wal)).1

  pub record IsStoreRecovered (snapshot : Option String) (w : World)
      (result : ApplicationRecoveryResult) (w' : World) : Type 0 where
    pub inspected : inspect env core snapshot w ≡ ok result.before
    pub allowed : MayRecover w result.before.state result.after.state
    pub inspected_after : inspect env core snapshot w' ≡ ok result.after
    pub log : w'.tables wal ≡ log_after snapshot w
    pub others :
        (path : FilePath) → (if path_eq wal path then Unit else w'.tables path ≡ w.tables path)

  -- The state when the core has recovered the log.
  abbrev rolled_back : Option String → World → World
  rolled_back snapshot w = (recover_wal_startup env core snapshot w).1

  rolled_back-others :
      (snapshot : Option String) (w : World) (path : FilePath)
      → if path_eq wal path then Unit else (rolled_back snapshot w).tables path ≡ w.tables path
  unfolding recover_wal_startup
  rolled_back-others snapshot w path = elim (Bool-cases (path_eq wal path)) [
    | inl same ↦ rw same tt
    | inr other ↦ rw other refl
  ]

  rolled_back-IsStoreRecovered :
      (snapshot : Option String) (w : World) (result : ApplicationRecoveryResult)
      → inspect env core snapshot w ≡ ok result.before
      → MayRecover w result.before.state result.after.state
      → inspect env core snapshot (rolled_back snapshot w) ≡ ok result.after
      → IsStoreRecovered snapshot w result (rolled_back snapshot w)
  unfolding recover_wal_startup
  rolled_back-IsStoreRecovered snapshot w result inspected allowed found = record {
    inspected = inspected;
    allowed = allowed;
    inspected_after = found;
    log = refl;
    others = rolled_back-others snapshot w;
  }

  same_run :
      (snapshot : Option String) (w now : World) (r : ApplicationRecoveryResult)
      {result : ApplicationRecoveryResult} {w' : World}
      → pure r now ≡ (ok result, w')
      → IsStoreRecovered snapshot w r now
      → IsStoreRecovered snapshot w result w'
  unfolding pure
  same_run snapshot w now r {result} {w'} h k =
      let e : r ≡ result = ok-eq (ap (λ (x : Result ApplicationRecoveryResult × World). x.0) h) in
      let f : now ≡ w' = ap (λ (x : Result ApplicationRecoveryResult × World). x.1) h in
      subst (λ v. IsStoreRecovered snapshot w result v) f
        (subst (λ v. IsStoreRecovered snapshot w v now) e k)

  recover_healthy-IsStoreRecovered :
      (snapshot : Option String) (before : StartupHealth) (w : World)
      {result : ApplicationRecoveryResult} {w' : World}
      → inspect env core snapshot w ≡ ok before
      → before.state ≡ healthy
      → recover_healthy env core snapshot before w ≡ (ok result, w')
      → IsStoreRecovered snapshot w result w'
  unfolding recover_healthy reads
  recover_healthy-IsStoreRecovered snapshot before w inspected state h =
      let (recovery, _, h1) = >>=-eq-ok (recover_wal_startup env core snapshot) _ w h in
      let now = rolled_back snapshot w in
      let (after, found, h2) = >>=-eq-ok (reads (inspect env core snapshot)) _ now h1 in
      same_run snapshot w now _ h2 (
        rolled_back-IsStoreRecovered snapshot w _ inspected
          (subst (λ s. MayRecover w s after.state) (sym state) (is_clean after.state)) found)

  -- Unfinished transactions were checked first.
  recover_unfinished-IsStoreRecovered :
      (snapshot : Option String) (before : StartupHealth) (w : World)
      {result : ApplicationRecoveryResult} {w' : World}
      → inspect env core snapshot w ≡ ok before
      → before.state ≡ recovery_required
      → recover_unfinished env core snapshot before w ≡ (ok result, w')
      → IsStoreRecovered snapshot w result w'
  unfolding recover_unfinished reads
  recover_unfinished-IsStoreRecovered snapshot before w inspected state h =
      let (pending, listed, h1) = >>=-eq-ok (reads (pending_transactions env)) _ w h in
      let (safe, h2) = raise_if-ok (not (is_empty (unsafe_transactions pending))) _ _ w h1 in
      let (recovery, _, h3) = >>=-eq-ok (recover_wal_startup env core snapshot) _ w h2 in
      let now = rolled_back snapshot w in
      let (after, found, h4) = >>=-eq-ok (reads (inspect env core snapshot)) _ now h3 in
      let (recovered, h5) = raise_if-ok (not (is_healthy after.state)) _ _ now h4 in
      let all_safe = has_no_effects pending listed (All-safe pending (not-false _ safe)) in
      let is_clean_now = healthy_state after.state (not-false _ recovered) in
      same_run snapshot w now _ h5 (
        rolled_back-IsStoreRecovered snapshot w _ inspected
          (subst (λ s. MayRecover w before.state s) (sym is_clean_now)
            (subst (λ s. MayRecover w s healthy) (sym state) all_safe))
          found)

  branch-IsStoreRecovered :
      (snapshot : Option String) (before : StartupHealth) (state : StartupState) (w : World)
      {result : ApplicationRecoveryResult} {w' : World}
      → inspect env core snapshot w ≡ ok before
      → before.state ≡ state
      → recover_by_state env core snapshot before state w ≡ (ok result, w')
      → IsStoreRecovered snapshot w result w'
  unfolding recover_by_state raise
  branch-IsStoreRecovered snapshot before healthy w inspected state h =
      recover_healthy-IsStoreRecovered snapshot before w inspected state h
  branch-IsStoreRecovered snapshot before recovery_required w inspected state h =
      recover_unfinished-IsStoreRecovered snapshot before w inspected state h
  branch-IsStoreRecovered snapshot before protected_mode w inspected state h = cc

  recover_store-IsStoreRecovered :
      (snapshot : Option String) (w : World) {result : ApplicationRecoveryResult} {w' : World}
      → recover_store env core snapshot w ≡ (ok result, w')
      → IsStoreRecovered snapshot w result w'
  unfolding recover_store reads
  recover_store-IsStoreRecovered snapshot w h =
      let (before, inspected, h1) = >>=-eq-ok (reads (inspect env core snapshot)) _ w h in
      branch-IsStoreRecovered snapshot before before.state w inspected refl h1

  module _ (documents : Content × Content) (root : Location) where
    pub record IsRecovered (snapshot : Option String) (d : DataRoot)
        (result : ApplicationRecoveryResult) (d' : DataRoot) : Type 0 where
      pub store : IsStoreRecovered snapshot d.world result d'.world
      pub disk : IsInitialized documents root d.disk d'.disk

    -- Where `recover_application_storage` returned, the storage was healthy, or its recovery was
    -- required, no pending transaction had a durable side effect, and it is healthy afterwards.
    -- The log is as the core left it, no other record file has changed, the identity files hold
    -- what they held or their defaults, no other file has changed, and the directories of a data
    -- root are there.
    pub recover_application_storage-IsRecovered :
        (snapshot : Option String) (d : DataRoot) {result : ApplicationRecoveryResult}
        {d' : DataRoot}
        → recover_application_storage env core documents root snapshot d ≡ (ok result, d')
        → IsRecovered snapshot d result d'
    unfolding recover_application_storage
    recover_application_storage-IsRecovered snapshot d h =
        let (run, disk) = with_store-eq documents root (recover_store env core snapshot) d h in
        record { store = recover_store-IsStoreRecovered snapshot d.world run; disk = disk }
