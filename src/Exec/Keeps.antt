-- ===== src/Exec/Keeps.antt =====
-- Invariants of actions, whether they return or raise: one rule for each way to build an action.
use bms_gui.Prelude.{◌≡◌, refl, Bool, true, false, List, [], ◌∷◌, if◌then◌else◌}
use bms_gui.Result.{Error, Result, ok, err}
use bms_gui.Exec.{Exec, pure, raise, reads, gets, lift, ◌>>=◌, raise_if, for_each, continue}

pub record Keeps {S A : Type 0} (P : S → Type 0) (m : Exec S A) : Type 0 where
  pub at : (s : S) → P s → P (m s).1

-- The one-step actions: none of them writes.
module _ {S A : Type 0} {Inv : S → Type 0} where
  pub Keeps-raise : (error : Error) → Keeps Inv (raise {A = A} error)
  unfolding raise
  Keeps-raise error = record { at = λ _ inv. inv }

  pub Keeps-reads : (read : S → Result A) → Keeps Inv (reads read)
  unfolding reads
  Keeps-reads read = record { at = λ _ inv. inv }

  pub Keeps-pure : (value : A) → Keeps Inv (pure value)
  unfolding pure
  Keeps-pure value = record { at = λ _ inv. inv }

  pub Keeps-lift : (result : Result A) → Keeps Inv (lift result)
  unfolding lift
  Keeps-lift result = record { at = λ _ inv. inv }

  pub Keeps-gets : (field : S → A) → Keeps Inv (gets field)
  unfolding gets
  Keeps-gets field = record { at = λ _ inv. inv }

  pub Keeps-if :
      (test : Bool) (yes_action no_action : Exec S A)
      → (test ≡ true → Keeps Inv yes_action)
      → (test ≡ false → Keeps Inv no_action)
      → Keeps Inv (if test then yes_action else no_action)
  Keeps-if false yes_action no_action on_yes on_no = on_no refl
  Keeps-if true yes_action no_action on_yes on_no = on_yes refl

Keeps-continue :
    {S A B : Type 0} (P : S → Type 0) (r : Result A) (f : A → Exec S B) (s : S)
    → ((a : A) → r ≡ ok a → P (f a s).1)
    → P s
    → P (continue r f s).1
Keeps-continue P (ok a) f s kf h = kf a refl
Keeps-continue P (err e) f s kf h = h

module _ {S A B : Type 0} {P : S → Type 0} where
  pub Keeps-bind :
      (first : Exec S A) (rest : A → Exec S B)
      → Keeps P first
      → ((value : A) → Keeps P (rest value))
      → Keeps P (first >>= rest)
  unfolding ◌>>=◌
  Keeps-bind first rest kept all_kept = record {
    at = λ w inv.
        let (result, w') = first w in
        Keeps-continue P result rest w' (λ value _. (all_kept value).at w' (kept.at w inv))
          (kept.at w inv);
  }

  -- The rest of a block may use what a reading part found.
  pub Keeps-bind-reads :
      (g : S → Result A) (f : A → Exec S B)
      → ((s : S) (a : A) → g s ≡ ok a → P s → P (f a s).1)
      → Keeps P (reads g >>= f)
  unfolding ◌>>=◌
  Keeps-bind-reads g f kf = record { at = λ s h. Keeps-continue P (g s) f s (λ a e. kf s a e h) h }

module _ {S : Type 0} {P : S → Type 0} where
  pub Keeps-raise_if : (b : Bool) (e : Error) → Keeps P (raise_if b e)
  unfolding raise_if
  Keeps-raise_if true e = record { at = λ s h. h }
  Keeps-raise_if false e = record { at = λ s h. h }

  pub Keeps-for_each :
      {A : Type 0} (xs : List A) (body : A → Exec S (Unit {0}))
      → ((x : A) → Keeps P (body x))
      → Keeps P (for_each xs body)
  unfolding for_each
  Keeps-for_each [] body k = Keeps-pure tt
  Keeps-for_each (x ∷ xs) body k =
      Keeps-bind (body x) (λ _. for_each xs body) (k x) (λ _. Keeps-for_each xs body k)

pub ruleset keeps_rules = (
  Keeps-pure, Keeps-raise, Keeps-reads, Keeps-gets, Keeps-lift, Keeps-if, Keeps-bind,
  Keeps-raise_if, Keeps-for_each,
)
