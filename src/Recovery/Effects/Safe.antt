-- ===== src/Recovery/Effects/Safe.antt =====
-- What it means that an unfinished operation has no durable side effects.
use bms_gui.Prelude.{
  String, ◌≡◌, ◌↔◌, refl, sym, subst, Bool, true, false, List, [], ◌∷◌, is_empty, All, IsIn, ap,
  ◌∙◌, ◌||◌, inl, inr, Bool-cases, arith, str_eq_refl, true-false, if◌then◌else◌,
}
use bms_gui.Json.{Payload, get, is_text}
use bms_gui.Result.{ok, ok-eq, >>=-eq-ok}
use bms_gui.Store.{FilePath, Env, World, payloads, read_payloads}
use bms_gui.Store.Frame.{read_payloads-ok}
use bms_gui.Recovery.Effects.Written.{
  Says, MayLeave, MayLeave-checked, checks_of-MayLeave, text-says,
}
use bms_gui.Recovery.Effects.{Check, any_with, checks_of, record_effects, durable_side_effects}

neither : (a b : Bool) → (a || b) ≡ false → (a ≡ false) × (b ≡ false)
neither a b h = ground arith

-- No payload of the file holds the text in the field.
abbrev pub IsAbsent : World → FilePath → String → String → Type 0
IsAbsent w path field_name id =
    (stored : Payload) → IsIn stored (payloads path w) → Says stored field_name id → ⊥

any_with-absent :
    (field_name id : String) (stored : List Payload)
    → any_with field_name id stored ≡ false
    → (p : Payload) → IsIn p stored
    → Says p field_name id
    → ⊥
unfolding any_with
any_with-absent field_name id [] h q there says = elim there [ ]
any_with-absent field_name id (p ∷ rest) h q (inl same) says =
    true-false (sym (held says') ∙ (neither (is_text (get field_name p) id) _ h).0)
  where
    says' : Says p field_name id
    says' = ap (get field_name) same ∙ says

    held : Says p field_name id → is_text (get field_name p) id ≡ true
    held e = ap (λ o. is_text o id) e ∙ str_eq_refl id
any_with-absent field_name id (p ∷ rest) h q (inr there) says =
    any_with-absent field_name id rest (neither (is_text (get field_name p) id) _ h).1 q there says

absent-any_with :
    (field_name id : String) (stored : List Payload)
    → ((p : Payload) → IsIn p stored → Says p field_name id → ⊥)
    → any_with field_name id stored ≡ false
unfolding any_with
absent-any_with field_name id [] h = refl
absent-any_with field_name id (p ∷ rest) h = elim (Bool-cases (is_text (get field_name p) id)) [
  | inl held ↦ absurd (h p (inl refl) (text-says (get field_name p) id held))
  | inr other ↦ rw other (absent-any_with field_name id rest (λ q there. h q (inr there)))
]

-- A check that finds nothing.
abbrev NotFound : World → Check → Type 0
NotFound w c = any_with c.field_name c.expected_value (payloads c.path w) ≡ false

All-map :
    {P Q : Check → Type 0} (checks : List Check)
    → ((c : Check) → P c → Q c)
    → All P checks
    → All Q checks
All-map [] f all = tt
All-map (c ∷ checks) f all = (f c all.0, All-map checks f all.1)

module _ (env : Env) where
  -- One check more.
  reason-NotFound :
      (w : World) (c : Check) (found : Bool) (reasons : List String) (Rest : Type 0)
      → (is_empty reasons ≡ true) ↔ Rest
      → (is_empty (if found then c.reason ∷ reasons else reasons) ≡ true) ↔ ((found ≡ false) × Rest)
  reason-NotFound w c true reasons Rest h =
      (λ e. absurd (true-false (sym e)), λ k. absurd (true-false k.0))
  reason-NotFound w c false reasons Rest h = (λ e. (refl, h.0 e), λ k. h.1 k.1)

  record_effects-NotFound :
      (checks : List Check) (w : World) {reasons : List String}
      → record_effects env checks w ≡ ok reasons
      → (is_empty reasons ≡ true) ↔ All (NotFound w) checks
  unfolding record_effects
  record_effects-NotFound [] w h =
      subst (λ rs. (is_empty rs ≡ true) ↔ Unit) (ok-eq h) (λ _. tt, λ _. refl)
  record_effects-NotFound (c ∷ checks) w h =
      let (stored, read, h1) = >>=-eq-ok (read_payloads env c.path w) _ h in
      let (reasons, rest, e) = >>=-eq-ok (record_effects env checks w) _ h1 in
      subst (λ rs. (is_empty rs ≡ true) ↔ All (NotFound w) (c ∷ checks)) (ok-eq e)
        (subst
          (λ ps.
            (is_empty
                (if any_with c.field_name c.expected_value ps then c.reason ∷ reasons else reasons)
              ≡ true)
            ↔ All (NotFound w) (c ∷ checks))
          (read_payloads-ok env c.path w read)
          (reason-NotFound w c _ reasons _ (record_effects-NotFound checks w rest)))

  -- Where the durable side effects of a pending operation are found, they are empty if and only if
  -- no file holds a payload of a record that the operation may have left: the invoice or the
  -- refund with its lines, by its id; the journal entry and its lines of a sale, a refund or a
  -- journal, by its id; each of the stock movements that a sale or a refund lists, or the one of a
  -- movement; or the item of a registration.
  pub durable_side_effects-IsAbsent :
      (payload : Payload) (w : World) {reasons : List String}
      → durable_side_effects env payload w ≡ ok reasons
      → (is_empty reasons ≡ true) ↔ (
          (path : FilePath) (field_name id : String)
          → MayLeave payload path field_name id
          → IsAbsent w path field_name id)
  unfolding durable_side_effects
  durable_side_effects-IsAbsent payload w h =
      let checked = record_effects-NotFound (checks_of payload) w h in
      (
        λ empty path field_name id may_leave. any_with-absent field_name id (payloads path w) (
            MayLeave-checked
              (λ path field_name id. any_with field_name id (payloads path w) ≡ false) payload path
              field_name id may_leave (checked.0 empty)),
        λ absent. checked.1 (
            All-map (checks_of payload)
              (λ c may_leave.
                absent-any_with c.field_name c.expected_value (payloads c.path w)
                  (absent c.path c.field_name c.expected_value may_leave))
              (checks_of-MayLeave payload)),
      )
