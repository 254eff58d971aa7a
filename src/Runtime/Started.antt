-- ===== src/Runtime/Started.antt =====
-- When the application starts, and that it does after a recovery.
use bms_gui.Prelude.{
  ◌≡◌, refl, sym, ap, ◌∙◌, subst, inl, inr, ◌⊎◌, Bool, true, false, not, ◌&&◌, ◌||◌, none, some,
  true-false, List, [], ◌∷◌, All, arith, Bool-cases, nat_eq, nat_eq_iff, is_empty, if_true,
  if_false,
}
use bms_gui.Result as R
use bms_gui.Result.{Error, Result, ok, ok-eq, err}
use bms_gui.Exec.{pure, reads, raise_if, modify, ◌>>=◌}
use bms_gui.Exec.Outcome.{>>=-eq-ok, raise_if-ok}
use bms_gui.Store.{FilePath, wal, periods, Env, World, payloads, read_payloads}
use bms_gui.Accounting.Periods.{closed_periods_of, load_closed_periods, start_accounting}
use bms_gui.Backup.Files.{Content, Location, initialize_data_root}
use bms_gui.Bootstrap.{DataRoot}
use bms_gui.Bootstrap.Initialized.{IsInitialized, with_store-eq, with_store-run}
use bms_gui.Recovery.Startup.{
  RecoveryEnv, WalRecoveryResult, StartupState, healthy, recovery_required, StartupHealth,
  is_healthy, source_files, known_status, inspect_source_files, inspect_wal_startup, unclean_health,
  clean_health, damaged_health, inspect,
}
use bms_gui.Recovery.Automatic.{ApplicationRecoveryResult, recover_application_storage}
use bms_gui.Recovery.Automatic.Safe as Safe
use bms_gui.Recovery.Automatic.Safe.{
  MayRecover, has_no_effects, not-false, healthy_state, recover_application_storage-IsRecovered,
}
use bms_gui.Runtime.{start_store, start_application}

err_ok : {A : Type 0} {e : Error} {a : A} → err e ≡ ok a → ⊥
err_ok h = cc

both_true : (a b : Bool) → a && b ≡ true → (a ≡ true) × (b ≡ true)
both_true a b h = ground arith

any_or : (b : Bool) → b || true ≡ true
any_or b = ground arith

healthy-unhealthy : (s : StartupState) → s ≡ healthy → is_healthy s ≡ false → ⊥
healthy-unhealthy s h e = absurd (true-false (sym (ap is_healthy h) ∙ e))

pub unclean_health-unhealthy : (r : WalRecoveryResult) → is_healthy (unclean_health r).state ≡ false
unfolding unclean_health
unclean_health-unhealthy r = elim (Bool-cases (nat_eq r.status 8 || nat_eq r.decision 3)) [
  | inl locked ↦ rw locked refl
  | inr other ↦
      elim (Bool-cases (nat_eq r.status 7 && (nat_eq r.decision 1 || nat_eq r.decision 2))) [
        | inl unfinished ↦ rw (other, unfinished) refl
        | inr unknown ↦ rw (other, unknown) refl
      ]
]

-- The memory of accounting, read from the file.
abbrev pub with_closed_periods : World → World
with_closed_periods w = record w { closed_periods = closed_periods_of (payloads periods w) }

module _ (env : Env) where
  abbrev pub Verifies : World → FilePath → Type 0
  Verifies w path = env.verify_status path (w.tables path) ≡ 0

  -- No file is damaged, or the first one that is.
  inspect_source_files-cases :
      (paths : List FilePath) (w : World)
      → ((inspect_source_files env paths w ≡ none) × All (Verifies w) paths)
        ⊎ ((path : FilePath) × (inspect_source_files env paths w ≡ some (damaged_health path)))
  unfolding inspect_source_files
  inspect_source_files-cases [] w = inl (refl, tt)
  inspect_source_files-cases (path ∷ paths) w =
      elim (Bool-cases (nat_eq (env.verify_status path (w.tables path)) 0)) [
        | inr broken ↦ inr (path, rw broken refl)
        | inl fine ↦ elim (inspect_source_files-cases paths w) [
          | inl (none_here, verified) ↦ inl (rw fine none_here, ((nat_eq_iff _ 0).0 fine, verified))
          | inr (other, there) ↦ inr (other, rw fine there)
        ]
      ]

  module _ (core : RecoveryEnv) where
    -- What the core says of the log.
    abbrev pub log_answer : World → WalRecoveryResult
    log_answer w = core.inspect_startup none (w.tables wal)

    -- The answers of `inspect`.
    pub data IsAnswer (w : World) : StartupHealth → Type 0 where
      is_clean :
          (log_answer w).status ≡ 0
          → (log_answer w).decision ≡ 0
          → All (Verifies w) source_files
          → IsAnswer w (clean_health (log_answer w))
      is_damaged : (path : FilePath) → IsAnswer w (damaged_health path)
      is_unclean : (r : WalRecoveryResult) → IsAnswer w (unclean_health r)

    inspect_wal_startup-ok :
        (w : World) {r : WalRecoveryResult}
        → inspect_wal_startup env core none w ≡ ok r
        → log_answer w ≡ r
    unfolding inspect_wal_startup
    inspect_wal_startup-ok w h = elim (Bool-cases (known_status (log_answer w).status)) [
      | inl known ↦ ok-eq (if_true _ _ _ known h)
      | inr unknown ↦ absurd (err_ok (if_false _ _ _ unknown h))
    ]

    clean-IsAnswer :
        (w : World) (r : WalRecoveryResult)
        → log_answer w ≡ r
        → r.status ≡ 0
        → r.decision ≡ 0
        → IsAnswer w (elim (inspect_source_files env source_files w) [
          | none ↦ clean_health r
          | some health ↦ health
        ])
    clean-IsAnswer w r answer status decision = elim (inspect_source_files-cases source_files w) [
      | inl (none_here, verified) ↦ rw none_here (
          subst (λ a. IsAnswer w (clean_health a)) answer
            (is_clean (ap (λ a. a.status) answer ∙ status) (ap (λ a. a.decision) answer ∙ decision)
              verified))
      | inr (path, there) ↦ rw there (is_damaged path)
    ]

    pub inspect-IsAnswer :
        (w : World) {health : StartupHealth}
        → inspect env core none w ≡ ok health
        → IsAnswer w health
    unfolding inspect
    inspect-IsAnswer w {health} h =
        let (r, answered, h1) = R.>>=-eq-ok (inspect_wal_startup env core none w) _ h in
        elim (Bool-cases (nat_eq r.status 0 && nat_eq r.decision 0)) [
          | inl clean ↦
              let both = both_true (nat_eq r.status 0) (nat_eq r.decision 0) clean in
              subst (IsAnswer w) (if_true _ _ _ clean (ok-eq h1)) (
                clean-IsAnswer w r (inspect_wal_startup-ok w answered)
                  ((nat_eq_iff r.status 0).0 both.0) ((nat_eq_iff r.decision 0).0 both.1))
          | inr unclean ↦ subst (IsAnswer w) (if_false _ _ _ unclean (ok-eq h1)) (is_unclean r)
        ]

    -- What healthy storage is: a clean log and files that verify.
    pub record IsHealthy (w : World) : Type 0 where
      pub status : (log_answer w).status ≡ 0
      pub decision : (log_answer w).decision ≡ 0
      pub verified : All (Verifies w) source_files

    answer-IsHealthy :
        (w : World) (health : StartupHealth)
        → IsAnswer w health
        → health.state ≡ healthy
        → IsHealthy w
    answer-IsHealthy w _ (is_clean status decision verified) h = record {
      status = status;
      decision = decision;
      verified = verified;
    }
    answer-IsHealthy w _ (is_damaged path) h = cc
    answer-IsHealthy w _ (is_unclean r) h =
        absurd (healthy-unhealthy _ h (unclean_health-unhealthy r))

    start_accounting-run :
        (w : World)
        → Verifies w periods
        → start_accounting env [] w ≡ (ok tt, with_closed_periods w)
    unfolding start_accounting load_closed_periods read_payloads ◌>>=◌ reads modify
    start_accounting-run w verified = rw (verified, any_or (is_empty (w.tables periods))) refl

    pub healthy-start_store :
        (w : World) {health : StartupHealth}
        → inspect env core none w ≡ ok health
        → health.state ≡ healthy
        → start_store env core w ≡ (ok health, with_closed_periods w)
    unfolding start_store ◌>>=◌ reads raise_if pure
    healthy-start_store w {health} inspected state =
        let clean = answer-IsHealthy w health (inspect-IsAnswer w inspected) state in
        rw (inspected, state, start_accounting-run w clean.verified.1.1.1.0) refl

    module _ (documents : Content × Content) (root : Location) where
      pub record IsStarted (d : DataRoot) (health : StartupHealth) (d' : DataRoot) : Type 0 where
        pub clean : IsHealthy d.world
        pub state : health.state ≡ healthy
        pub opened : d'.world ≡ with_closed_periods d.world
        pub disk : IsInitialized documents root d.disk d'.disk

      -- Where `start_application` returned, the core says that the log is clean, every source file
      -- verifies, the health is that of healthy storage, no record file has changed, the closed
      -- periods in memory are those of the periods file, the identity files hold what they held or
      -- their defaults, no other file has changed, and the directories of a data root are there.
      pub start_application-IsStarted :
          (d : DataRoot) {health : StartupHealth} {d' : DataRoot}
          → start_application env core documents root d ≡ (ok health, d')
          → IsStarted d health d'
      unfolding start_application start_store reads
      start_application-IsStarted d {health} {d'} h =
          let w = d.world in
          let (started, disk) = with_store-eq documents root (start_store env core) d h in
          let (found, inspected, h1) = >>=-eq-ok (reads (inspect env core none)) _ w started in
          let (is_ok, h2) = raise_if-ok (not (is_healthy found.state)) _ _ w h1 in
          let state = healthy_state found.state (not-false _ is_ok) in
          let run = sym (healthy-start_store w inspected state) ∙ started in
          record {
            clean = answer-IsHealthy w found (inspect-IsAnswer w inspected) state;
            state =
                subst (λ (k : StartupHealth). k.state ≡ healthy)
                  (ok-eq (ap (λ (x : Result StartupHealth × World). x.0) run)) state;
            opened = sym (ap (λ (x : Result StartupHealth × World). x.1) run);
            disk = disk;
          }

      after-healthy :
          (w : World) {before after : StartupState}
          → MayRecover env core w before after
          → before ≡ recovery_required
          → after ≡ healthy
      after-healthy w (Safe.is_clean after) h = cc
      after-healthy w (has_no_effects pending found safe) h = refl

      -- The root when the application has started in it.
      abbrev pub started_root : DataRoot → DataRoot
      started_root d = record {
        world = with_closed_periods d.world;
        disk = initialize_data_root documents root d.disk;
      }

      -- Where `recover_application_storage` returned on a data root whose recovery was required,
      -- `start_application` of the root returns afterwards, with the health that recovery told and
      -- the closed periods of the periods file.
      pub recover_application_storage-start_application :
          (d : DataRoot) {result : ApplicationRecoveryResult} {d' : DataRoot}
          → recover_application_storage env core documents root none d ≡ (ok result, d')
          → result.before.state ≡ recovery_required
          → start_application env core documents root d' ≡ (ok result.after, started_root d')
      unfolding start_application
      recover_application_storage-start_application d h required =
          let r =
            (recover_application_storage-IsRecovered env core documents root none d h).store in
          with_store-run documents root (start_store env core) _
            (healthy-start_store _ r.inspected_after (after-healthy _ r.allowed required))
