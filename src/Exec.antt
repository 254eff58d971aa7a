-- ===== src/Exec.antt =====
-- Methods that read and write the application's state and may raise. What was written before a
-- raise stays written, so the state comes back beside the error too.
pub mod Keeps
pub mod Outcome
use bms_gui.Prelude.{Bool, List, [], ◌∷◌, if◌then◌else◌}
use bms_gui.Result.{Error, Result, ok, err}

abbrev pub Exec : Type 0 → Type 0 → Type 0
Exec S A = S → Result A × S

module _ {S A : Type 0} where
  unfoldable pub pure : A → Exec S A
  pure a s = (ok a, s)

  unfoldable pub raise : Error → Exec S A
  raise e s = (err e, s)

  -- A part of a method that only reads.
  unfoldable pub reads : (S → Result A) → Exec S A
  reads f s = (f s, s)

  unfoldable pub gets : (S → A) → Exec S A
  gets f s = (ok (f s), s)

  unfoldable pub lift : Result A → Exec S A
  lift r s = (r, s)

module _ {S A B : Type 0} where
  abbrev pub continue : Result A → (A → Exec S B) → Exec S B
  continue (err error) rest w = (err error, w)
  continue (ok value) rest w = rest value w

  infixl 10 ◌>>=◌ ◌>>◌
  -- Unfolding this unfolds the ways to build an action too.
  unfoldable pub ◌>>=◌ : Exec S A → (A → Exec S B) → Exec S B
  unfolding pure raise reads gets lift
  ◌>>=◌ first rest w = let (result, w') = first w in continue result rest w'

  abbrev pub ◌>>◌ : Exec S A → Exec S B → Exec S B
  first >> rest = first >>= λ _. rest

module _ {S : Type 0} where
  -- `if test: raise error`
  unfoldable pub raise_if : Bool → Error → Exec S (Unit {0})
  unfolding pure raise
  raise_if test e = if test then raise e else pure tt

  unfoldable pub modify : (S → S) → Exec S (Unit {0})
  modify f s = (ok tt, f s)

  -- A `for` loop whose body returns nothing.
  unfoldable pub for_each : {A : Type 0} → List A → (A → Exec S (Unit {0})) → Exec S (Unit {0})
  unfolding pure ◌>>=◌
  for_each [] body = pure tt
  for_each (x ∷ xs) body = body x >> for_each xs body
