-- ===== src/Exec/Outcome.antt =====
-- Postconditions: what holds after an action that returned, and after one that raised.
use bms_gui.Prelude.{◌≡◌, refl, subst, Bool, true, false, ap, sym, ◌∙◌}
use bms_gui.Result.{Error, Result, ok, err}
use bms_gui.Exec.{Exec, pure, reads, lift, ◌>>=◌, raise_if, continue}
use bms_gui.Exec.Keeps.{Keeps}

-- `Q` of the result and the state of a run that returned, `R` of the state of one that raised.
abbrev pub Ends : {S A : Type 0} → (A → S → Type 0) → (S → Type 0) → Result A → S → Type 0
Ends Q R (ok a) s = Q a s
Ends Q R (err e) s = R s

pub record Triple {S A : Type 0} (P : S → Type 0) (m : Exec S A) (Q : A → S → Type 0)
    (R : S → Type 0) : Type 0 where
  pub at : (s : S) → P s → Ends Q R (m s).0 (m s).1

-- What a returning run says, and what every run says when both ends say it.
pub Triple-ok :
    {S A : Type 0} {P : S → Type 0} {Q : A → S → Type 0} {R : S → Type 0} (m : Exec S A) (s : S)
    {a : A} {s' : S}
    → Triple P m Q R
    → P s
    → m s ≡ (ok a, s')
    → Q a s'
Triple-ok {Q} {R} m s t h e = subst (λ r. Ends Q R r.0 r.1) e (t.at s h)

Ends-both :
    {S A : Type 0} (Q : A → S → Type 0) (R : S → Type 0) (r : Result A) (s : S)
    → ((a : A) → Q a s → R s)
    → Ends Q R r s
    → R s
Ends-both Q R (ok a) s q h = q a h
Ends-both Q R (err e) s q h = h

pub Triple-both :
    {S A : Type 0} {P : S → Type 0} (Q : A → S → Type 0) (R : S → Type 0) (m : Exec S A) (s : S)
    → Triple P m Q R
    → ((a : A) (s' : S) → Q a s' → R s')
    → P s
    → R (m s).1
Triple-both Q R m s t q h = Ends-both Q R (m s).0 (m s).1 (λ a. q a (m s).1) (t.at s h)

Ends-bind :
    {S A B : Type 0} (Q : A → S → Type 0) (R : S → Type 0) (T : B → S → Type 0) (r : Result A)
    (f : A → Exec S B) (s : S)
    → ((a : A) → r ≡ ok a → Q a s → Ends T R (f a s).0 (f a s).1)
    → Ends Q R r s
    → Ends T R (continue r f s).0 (continue r f s).1
Ends-bind Q R T (ok a) f s k h = k a refl h
Ends-bind Q R T (err e) f s k h = h

module _ {S A B : Type 0} {P R : S → Type 0} {T : B → S → Type 0} where
  pub Triple-bind :
      (Q : A → S → Type 0) (m : Exec S A) (f : A → Exec S B)
      → Triple P m Q R
      → ((a : A) → Triple (Q a) (f a) T R)
      → Triple P (m >>= f) T R
  unfolding ◌>>=◌
  Triple-bind Q m f tm tf = record {
    at = λ s h. Ends-bind Q R T (m s).0 f (m s).1 (λ a _ q. (tf a).at (m s).1 q) (tm.at s h);
  }

  -- After a part that only reads, the rest may use what was read, and where.
  pub Triple-bind-reads :
      (g : S → Result A) (f : A → Exec S B)
      → ((s : S) → P s → R s)
      → ((a : A) → Triple (λ s. (g s ≡ ok a) × P s) (f a) T R)
      → Triple P (reads g >>= f) T R
  unfolding ◌>>=◌
  Triple-bind-reads g f back tf = record {
    at = λ s h.
        Ends-bind (λ a s'. P s') R T (g s) f s (λ a e q. (tf a).at s (e, q)) (Ends-reads (g s) s h);
  }
    where
      Ends-reads : (r : Result A) (s : S) → P s → Ends (λ (a : A) s'. P s') R r s
      Ends-reads (ok a) s h = h
      Ends-reads (err e) s h = back s h

  pub Triple-bind-lift :
      (r : Result A) (f : A → Exec S B)
      → ((s : S) → P s → R s)
      → ((a : A) → r ≡ ok a → Triple P (f a) T R)
      → Triple P (lift r >>= f) T R
  unfolding ◌>>=◌
  Triple-bind-lift (ok a) f back tf = record { at = λ s h. (tf a refl).at s h }
  Triple-bind-lift (err e) f back tf = record { at = λ s h. back s h }

module _ {S A : Type 0} {P R : S → Type 0} where
  keeps-Ends :
      (m : Exec S A) (r : Result A) (s : S)
      → ((s' : S) → P s' → R s')
      → P s
      → Ends (λ (a : A) s'. P s') R r s
  keeps-Ends m (ok a) s k h = h
  keeps-Ends m (err e) s k h = k s h

  -- A part that keeps `P`.
  pub Triple-Keeps : (m : Exec S A) → Keeps P m → ((s : S) → P s → R s) → Triple P m (λ _ s. P s) R
  Triple-Keeps m k back = record { at = λ s h. keeps-Ends m (m s).0 (m s).1 back (k.at s h) }

  pub Triple-pure : {Q : A → S → Type 0} (a : A) → ((s : S) → P s → Q a s) → Triple P (pure a) Q R
  unfolding pure
  Triple-pure a k = record { at = k }

-- A statement that keeps `P`, and then the rest.
pub Triple-then :
    {S A B : Type 0} {P R : S → Type 0} {T : B → S → Type 0} (m : Exec S A) (f : A → Exec S B)
    → Keeps P m
    → ((s : S) → P s → R s)
    → ((a : A) → Triple P (f a) T R)
    → Triple P (m >>= f) T R
Triple-then {P = P} m f k back tf = Triple-bind (λ _ s. P s) m f (Triple-Keeps m k back) tf

bind-cases :
    {S A B : Type 0} (r : Result A) (f : A → Exec S B) (s : S) {b : B} {s' : S}
    → continue r f s ≡ (ok b, s')
    → (a : A) × (r ≡ ok a) × (f a s ≡ (ok b, s'))
bind-cases (ok a) f s h = (a, refl, h)
bind-cases (err e) f s h = cc

-- A block that returned returned from its first statement.
pub >>=-eq-ok :
    {S A B : Type 0} (m : Exec S A) (f : A → Exec S B) (s : S) {b : B} {s' : S}
    → (m >>= f) s ≡ (ok b, s')
    → (a : A) × ((m s).0 ≡ ok a) × (f a (m s).1 ≡ (ok b, s'))
unfolding ◌>>=◌
>>=-eq-ok m f s h = bind-cases (m s).0 f (m s).1 h

-- A block whose first statement returned goes on from there.
pub >>=-run :
    {S A B : Type 0} (m : Exec S A) (f : A → Exec S B) (s : S) {a : A} {s' : S}
    → m s ≡ (ok a, s')
    → (m >>= f) s ≡ f a s'
unfolding ◌>>=◌
>>=-run m f s h = rw h

-- The same, where the run of the first statement is known.
pub >>=-run_ok :
    {S A B : Type 0} (m : Exec S A) (f : A → Exec S B) (s : S) {r : Result A} {now : S} {b : B}
    {s' : S}
    → m s ≡ (r, now)
    → (m >>= f) s ≡ (ok b, s')
    → (a : A) × (r ≡ ok a) × (f a now ≡ (ok b, s'))
unfolding ◌>>=◌
>>=-run_ok m f s {r} {now} run h = bind-cases r f now (ap (λ p. continue p.0 f p.1) (sym run) ∙ h)

-- Nothing is said of the state.
abbrev pub Anything : {S : Type 0} → S → Type 0
Anything s = Unit

-- Behind a check that passed.
pub raise_if-ok :
    {S B : Type 0} (test : Bool) (error : Error) (f : Unit {0} → Exec S B) (s : S) {b : B} {s' : S}
    → (raise_if test error >>= f) s ≡ (ok b, s')
    → (test ≡ false) × (f tt s ≡ (ok b, s'))
unfolding ◌>>=◌ raise_if
raise_if-ok true error f s h = cc
raise_if-ok false error f s h = (refl, h)

-- A block whose reading part raised has written nothing.
pub reads-err :
    {S A B : Type 0} (f : S → Result A) (k : A → Exec S B) (w : S) {e : Error}
    → f w ≡ err e
    → (reads f >>= k) w ≡ (err e, w)
unfolding ◌>>=◌
reads-err f k w h = rw h

pub Anything-Keeps : {S A : Type 0} (m : Exec S A) → Keeps Anything m
Anything-Keeps m = record { at = λ w h. tt }
