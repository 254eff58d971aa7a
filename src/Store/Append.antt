-- ===== src/Store/Append.antt =====
-- What an append adds to the payloads of its own file.
use bms_gui.Prelude.{String, ◌≡◌, refl, Option, List, [], ◌∷◌, ◌++◌, inl, inr, Bool-cases}
use bms_gui.Json.{Payload}
use bms_gui.Exec.Keeps.{keeps_rules}
use bms_gui.Exec.Outcome.{Triple, Triple-then}
use bms_gui.Store.{
  FilePath, AppendRecord, World, Fate, written, refused, unflushed, Env, has_key, add_record,
  settle, core_append_record, append_record,
}
use bms_gui.Store.Frame.{OnTable, payloads-add_self, uuid4_hex-Keeps, utc_now-Keeps, or_else-Keeps}

-- Going on from `T`, one more payload gives `U`; both are enough where the append raises.
module _ (env : Env) (path : FilePath) {T U : List Payload → Type 0} {R : World → Type 0}
    (payload : Payload) (grow : (ps : List Payload) → T ps → U (ps ++ payload ∷ []))
    (before : (w : World) → OnTable path T w → R w)
    (after : (w : World) → OnTable path U w → R w) where
  grown :
      (r : AppendRecord) (w : World)
      → r.payload ≡ payload
      → OnTable path T w
      → OnTable path U (add_record path r w)
  grown r w e h = record { holds = rw (payloads-add_self path r w, e) (grow _ h.holds) }

  settle-adds :
      (f : Fate) (r : AppendRecord)
      → r.payload ≡ payload
      → Triple (OnTable path T) (settle f path r) (λ _ w. OnTable path U w) R
  unfolding settle
  settle-adds written r e = record { at = λ w h. grown r w e h }
  settle-adds (refused status) r e = record { at = λ w h. before w h }
  settle-adds (unflushed status) r e = record { at = λ w h. after _ (grown r w e h) }

  pub core_append-adds :
      (r : AppendRecord)
      → r.payload ≡ payload
      → Triple (OnTable path T) (core_append_record env path r) (λ _ w. OnTable path U w) R
  unfolding core_append_record
  core_append-adds r e = record {
    at = λ w h. elim (Bool-cases (has_key r.idempotency_key (w.tables path))) [
      | inl found ↦ rw found (before w h)
      | inr fresh ↦ rw fresh ((settle-adds (env.fate path (w.tables path) r) r e).at w h)
    ];
  }

  pub append_record-adds :
      (type actor correlation key : String) (id time : Option String)
      → Triple
          (OnTable path T)
          (append_record env path type actor correlation key payload id time)
          (λ _ w. OnTable path U w)
          R
  unfolding append_record
  append_record-adds type actor correlation key id time =
      Triple-then _ _ (search (keeps_rules, or_else-Keeps, uuid4_hex-Keeps)) before λ given_id.
        Triple-then _ _ (search (or_else-Keeps, utc_now-Keeps)) before
          λ given_time. core_append-adds _ refl
