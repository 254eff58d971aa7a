-- ===== src/Store/Frame.antt =====
-- What the operations of the store keep: a fact about the payloads of one file survives every
-- append to another file, and an append to the file itself that keeps the fact.
use bms_gui.Prelude.{
  String, ◌≡◌, subst, true, false, Option, none, some, List, [], ◌∷◌, ◌++◌, inl, inr, Bool-cases,
  if◌then◌else◌, arith,
}
use mathlib.Core.List.{map-append}
use bms_gui.Json.{Payload}
use bms_gui.Result.{ok}
use bms_gui.Exec.{Exec}
use bms_gui.Exec.Keeps.{Keeps, keeps_rules}
use bms_gui.Store.{
  FilePath, wal, business_events, audit_records, path_eq, AppendRecord, World, Fate, written,
  refused, unflushed, Env, has_key, add_record, settle, payloads, core_append_record, uuid4_hex,
  utc_now, or_else, append_wal_record, append_wal_pending, append_wal_committed, append_record,
  read_payloads, append_business_event, append_audit_record,
}

-- A fact about the payloads of one file.
pub record OnTable (path : FilePath) (T : List Payload → Type 0) (w : World) : Type 0 where
  pub holds : T (payloads path w)

-- The payloads of a file are these.
abbrev pub Holds : FilePath → List Payload → World → Type 0
Holds path ps = OnTable path (λ qs. qs ≡ ps)

-- Two files are not one; at two names it computes.
abbrev pub Apart : FilePath → FilePath → Type 0
Apart p q = if path_eq p q then ⊥ else Unit

pub Apart-false : (p q : FilePath) → Apart p q → path_eq p q ≡ false
Apart-false p q a = elim (Bool-cases (path_eq p q)) [
  | inl e ↦ absurd (subst (λ b. if b then ⊥ else Unit) e a)
  | inr e ↦ e
]

pub payloads-add_ne :
    (q p : FilePath) (r : AppendRecord) (w : World)
    → Apart q p
    → payloads p (add_record q r w) ≡ payloads p w
unfolding add_record
payloads-add_ne q p r w a = rw (Apart-false q p a)

path_eq_refl : (p : FilePath) → path_eq p p ≡ true
path_eq_refl p = ground arith

pub payloads-add_self :
    (p : FilePath) (r : AppendRecord) (w : World)
    → payloads p (add_record p r w) ≡ payloads p w ++ r.payload ∷ []
unfolding add_record
payloads-add_self p r w = rw (path_eq_refl p) (map-append _ (w.tables p) (r ∷ []))

module _ (env : Env) {path : FilePath} {T : List Payload → Type 0} where
  settle-ne :
      (f : Fate) (q : FilePath) (r : AppendRecord)
      → Apart q path
      → Keeps (OnTable path T) (settle f q r)
  unfolding settle
  settle-ne written q r a = record {
    at = λ w h. record { holds = rw (payloads-add_ne q path r w a) h.holds };
  }
  settle-ne (refused status) q r a = record { at = λ w h. h }
  settle-ne (unflushed status) q r a = record {
    at = λ w h. record { holds = rw (payloads-add_ne q path r w a) h.holds };
  }

  core_append_ne :
      (q : FilePath) (r : AppendRecord)
      → Apart q path
      → Keeps (OnTable path T) (core_append_record env q r)
  unfolding core_append_record
  core_append_ne q r a = record {
    at = λ w h. elim (Bool-cases (has_key r.idempotency_key (w.tables q))) [
      | inl found ↦ rw found h
      | inr fresh ↦ rw fresh ((settle-ne (env.fate q (w.tables q) r) q r a).at w h)
    ];
  }

  pub uuid4_hex-Keeps : Keeps (OnTable path T) (uuid4_hex env)
  unfolding uuid4_hex
  uuid4_hex-Keeps = record { at = λ w h. record { holds = h.holds } }

  pub utc_now-Keeps : Keeps (OnTable path T) (utc_now env)
  unfolding utc_now
  utc_now-Keeps = record { at = λ w h. record { holds = h.holds } }

  pub or_else-Keeps :
      (given : Option String) (default : Exec World String)
      → Keeps (OnTable path T) default
      → Keeps (OnTable path T) (or_else env given default)
  unfolding or_else
  or_else-Keeps none default k = k
  or_else-Keeps (some s) default k = search (keeps_rules, k)

  append_wal_ne :
      (id state time actor correlation : String) (payload : Payload)
      → Apart wal path
      → Keeps (OnTable path T) (append_wal_record env id state time actor correlation payload)
  unfolding append_wal_record
  append_wal_ne id state time actor correlation payload a = search (keeps_rules, core_append_ne)

  pub append_wal_pending-Keeps :
      (id time actor correlation : String) (payload : Payload)
      → Apart wal path
      → Keeps (OnTable path T) (append_wal_pending env id time actor correlation payload)
  unfolding append_wal_pending
  append_wal_pending-Keeps id time actor correlation payload a =
      append_wal_ne id "pending" time actor correlation payload a

  pub append_wal_committed-Keeps :
      (id time actor correlation : String)
      → Apart wal path
      → Keeps (OnTable path T) (append_wal_committed env id time actor correlation)
  unfolding append_wal_committed
  append_wal_committed-Keeps id time actor correlation a =
      append_wal_ne id "committed" time actor correlation _ a

  pub append_record-Keeps :
      (q : FilePath) (type actor correlation key : String) (payload : Payload)
      (id time : Option String)
      → Apart q path
      → Keeps (OnTable path T) (append_record env q type actor correlation key payload id time)
  unfolding append_record
  append_record-Keeps q type actor correlation key payload id time a =
      search (keeps_rules, core_append_ne, uuid4_hex-Keeps, utc_now-Keeps, or_else-Keeps)

  pub append_business_event-Keeps :
      (type actor : String) (payload : Payload) (correlation time key : Option String)
      → Apart business_events path
      → Keeps (OnTable path T) (append_business_event env type actor payload correlation time key)
  unfolding append_business_event
  append_business_event-Keeps type actor payload correlation time key a =
      search (keeps_rules, append_record-Keeps, uuid4_hex-Keeps, utc_now-Keeps, or_else-Keeps) depth
        12

  pub append_audit_record-Keeps :
      (action actor type target correlation : String) (time : Option String) (details : Payload)
      (key : Option String)
      → Apart audit_records path
      → Keeps
          (OnTable path T)
          (append_audit_record env action actor type target correlation time details key)
  unfolding append_audit_record
  append_audit_record-Keeps action actor type target correlation time details key a =
      search (keeps_rules, append_record-Keeps, utc_now-Keeps, or_else-Keeps)

pub ruleset store_keeps = (
  keeps_rules, uuid4_hex-Keeps, utc_now-Keeps, or_else-Keeps, append_wal_pending-Keeps,
  append_wal_committed-Keeps, append_record-Keeps, append_business_event-Keeps,
  append_audit_record-Keeps,
)

-- What a read returned is what the file holds.
pub read_payloads-ok :
    (env : Env) (path : FilePath) (w : World) {ps : List Payload}
    → read_payloads env path w ≡ ok ps
    → payloads path w ≡ ps
unfolding read_payloads
read_payloads-ok env path w h = ground arith
