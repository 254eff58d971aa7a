-- ===== src/Result.antt =====
-- Errors as values: the exception classes of the source, and pure code that may raise one.
use bms_gui.Prelude.{
  arith, ℕ, String, ◌≡◌, refl, sym, ap, ◌∙◌, ◌⊎◌, inl, inr, Bool, true, false, Option, none, some,
  List, [], ◌∷◌, ◌++◌, All, if◌then◌else◌,
}

-- The exception classes of the source, with their messages; `core_error` carries the status of
-- `BmsCoreError` in src/bms/core.py, and `validation_error` is the one of pydantic;
-- `os_error`, `tar_error` and `json_error` are those of the libraries of Python.
pub data Error : Type 0 where
  accounting_error inventory_error billing_error reconciliation_error : String → Error
  event_schema_error value_error period_close_error authorization_error key_error : String → Error
  reporting_error recovery_error runtime_error validation_error backup_error : String → Error
  os_error tar_error json_error : String → Error
  core_error : ℕ → Error
  zero_division_error index_error : Error

pub data Result (A : Type 0) : Type 0 where
  ok : A → Result A
  err : Error → Result A

infixl 10 ◌>>=◌ ◌>>◌
abbrev pub ◌>>=◌ : {A B : Type 0} → Result A → (A → Result B) → Result B
err error >>= rest = err error
ok value >>= rest = rest value

abbrev pub ◌>>◌ : {A B : Type 0} → Result A → Result B → Result B
m >> n = m >>= λ _. n

-- `if test: raise error`
abbrev pub fail_if : Bool → Error → Result (Unit {0})
fail_if test e = if test then err e else ok tt

-- A loop that only checks.
unfoldable pub check_each : {A : Type 0} → List A → (A → Result (Unit {0})) → Result (Unit {0})
check_each [] body = ok tt
check_each (x ∷ xs) body = body x >> check_each xs body

-- A comprehension whose element may raise.
unfoldable pub collect : {A B : Type 0} → (A → Result B) → List A → Result (List B)
collect f [] = ok []
collect f (x ∷ xs) = f x >>= λ y. collect f xs >>= λ ys. ok (y ∷ ys)

-- A loop with an accumulator.
unfoldable pub fold_each : {A B : Type 0} → (B → A → Result B) → B → List A → Result B
fold_each f acc [] = ok acc
fold_each f acc (x ∷ xs) = f acc x >>= λ acc'. fold_each f acc' xs

-- Code that returned returned from its first part.
pub >>=-eq-ok :
    {A B : Type 0} (first : Result A) (rest : A → Result B) {result : B}
    → (first >>= rest) ≡ ok result
    → (value : A) × (first ≡ ok value) × (rest value ≡ ok result)
>>=-eq-ok (err error) rest returned = cc
>>=-eq-ok (ok value) rest returned = (value, refl, returned)

-- Code behind a check that returned: the check passed.
pub guard-ok :
    {B : Type 0} (b : Bool) (e : Error) (k : Result B) {x : B}
    → (fail_if b e >> k) ≡ ok x
    → (b ≡ false) × (k ≡ ok x)
guard-ok true e k h = cc
guard-ok false e k h = (refl, h)

-- An optional value that the rest needs.
pub found-ok :
    {A B : Type 0} (o : Option A) (e : Error) (f : A → Result B) {b : B}
    → elim o [ none ↦ err e | some a ↦ f a ] ≡ ok b
    → (a : A) × (o ≡ some a) × (f a ≡ ok b)
found-ok none e f h = cc
found-ok (some a) e f h = (a, refl, h)

pub ok-eq : {A : Type 0} {a b : A} → ok a ≡ ok b → a ≡ b
ok-eq h = ground arith

pub then-ok :
    {B : Type 0} (m : Result (Unit {0})) (k : Result B) {x : B}
    → (m >> k) ≡ ok x
    → (m ≡ ok tt) × (k ≡ ok x)
then-ok (ok tt) k h = (refl, h)
then-ok (err e) k h = cc

pub Result-cases :
    {A : Type 0} (r : Result A) → ((a : A) × (r ≡ ok a)) ⊎ ((e : Error) × (r ≡ err e))
Result-cases (ok a) = inl (a, refl)
Result-cases (err e) = inr (e, refl)

-- A loop of checks that returned: every check passed.
pub check_each-ok :
    {A : Type 0} (test : A → Bool) (error : Error) (xs : List A)
    → check_each xs (λ x. fail_if (test x) error) ≡ ok tt
    → All (λ x. test x ≡ false) xs
unfolding check_each
check_each-ok test error [] h = tt
check_each-ok test error (x ∷ xs) h =
    let (first, rest) = guard-ok (test x) error _ h in (first, check_each-ok test error xs rest)

-- The laws of sequencing.
pub bind-ok : {A : Type 0} (m : Result A) → (m >>= λ a. ok a) ≡ m
bind-ok (ok a) = refl
bind-ok (err e) = refl

pub bind_assoc :
    {A B C : Type 0} (m : Result A) (f : A → Result B) (g : B → Result C)
    → (m >>= f >>= g) ≡ (m >>= λ a. f a >>= g)
bind_assoc (ok a) f g = refl
bind_assoc (err e) f g = refl

pub bind_congr :
    {A B : Type 0} (m : Result A) (f g : A → Result B)
    → ((a : A) → f a ≡ g a)
    → (m >>= f) ≡ (m >>= g)
bind_congr (ok a) f g h = h a
bind_congr (err e) f g h = refl

-- A loop over one more element.
pub fold_each-append :
    {A B : Type 0} (f : B → A → Result B) (acc : B) (xs : List A) (x : A)
    → fold_each f acc (xs ++ x ∷ []) ≡ (fold_each f acc xs >>= λ acc'. f acc' x)
unfolding fold_each
fold_each-append f acc [] x = bind-ok (f acc x)
fold_each-append f acc (y ∷ xs) x =
    bind_congr (f acc y) _ _ (λ acc'. fold_each-append f acc' xs x)
    ∙ sym (bind_assoc (f acc y) (λ acc'. fold_each f acc' xs) (λ acc'. f acc' x))

pub collect-append :
    {A B : Type 0} (f : A → Result B) (xs ys : List A) {before after : List B}
    → collect f xs ≡ ok before
    → collect f ys ≡ ok after
    → collect f (xs ++ ys) ≡ ok (before ++ after)
unfolding collect
collect-append f [] ys {before} {after} h k = k ∙ ap (λ vs. ok (vs ++ after)) (ok-eq h)
collect-append f (x ∷ xs) ys {before} {after} h k =
    let (b, first, h1) = >>=-eq-ok (f x) _ h in
    let (rest, others, e) = >>=-eq-ok (collect f xs) _ h1 in
    rw (first, collect-append f xs ys others k) (ap (λ vs. ok (vs ++ after)) (ok-eq e))
