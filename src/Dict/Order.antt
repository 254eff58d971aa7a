-- ===== src/Dict/Order.antt =====
-- Python's orders of texts, of pairs of them and of the keys of lines are total.
use Prim.Native.Nat.{ℕ, zero, suc, Ordering, compare as compare_ℕ}
use Prim.Native.Nat.compare as compare_ℕ
use Prim.Native.Char.{code}
use Prim.Native.String.compare
use Prim.Native.String.{String, [], ◌∷◌, compare, then as then_order}
use text.Mathlib.Text.{is_le}
use bms_gui.Prelude.{
  ◌≡◌, refl, sym, ◌∙◌, ap, ap₂, true, false, arith, Bool, ℤ, leb_ℤ, str_eq, eq_iff, if◌then◌else◌,
}
use bms_gui.Dict.Keys.{str_le}

abbrev flip : Ordering → Ordering
flip Ordering.lt = Ordering.gt
flip Ordering.eq = Ordering.eq
flip Ordering.gt = Ordering.lt

compare_ℕ-flip : (m n : ℕ) → compare_ℕ n m ≡ flip (compare_ℕ m n)
compare_ℕ-flip zero zero = refl
compare_ℕ-flip zero (suc n) = rw (compare_ℕ.suc-zero n, compare_ℕ.zero-suc n)
compare_ℕ-flip (suc m) zero = rw (compare_ℕ.suc-zero m, compare_ℕ.zero-suc m)
compare_ℕ-flip (suc m) (suc n) =
    rw (compare_ℕ.suc-suc n m, compare_ℕ.suc-suc m n) (compare_ℕ-flip m n)

then-flip : (o p : Ordering) → flip (then_order o p) ≡ then_order (flip o) (flip p)
then-flip Ordering.lt p = refl
then-flip Ordering.eq p = refl
then-flip Ordering.gt p = refl

compare-flip : (s t : String) → compare t s ≡ flip (compare s t)
compare-flip [] [] = refl
compare-flip [] (d ∷ t) = rw (compare.cons-nil d t, compare.nil-cons d t)
compare-flip (c ∷ s) [] = rw (compare.nil-cons c s, compare.cons-nil c s)
compare-flip (c ∷ s) (d ∷ t) =
    rw (compare.cons-cons d c t s, compare.cons-cons c d s t)
      (ap₂ then_order (compare_ℕ-flip (code c) (code d)) (compare-flip s t)
        ∙ sym (then-flip (compare_ℕ (code c) (code d)) (compare s t)))

is_le-flip : (o : Ordering) → is_le o ≡ false → is_le (flip o) ≡ true
is_le-flip Ordering.lt h = cc
is_le-flip Ordering.eq h = cc
is_le-flip Ordering.gt h = refl

pub str_le_total : (s t : String) → str_le s t ≡ false → str_le t s ≡ true
str_le_total s t h = ap is_le (compare-flip s t) ∙ is_le-flip (compare s t) h

-- Lexicographic orders of total orders, where the first parts are texts.
pub lexical_total :
    {A : Type 0} (le : A → A → Bool) (s t : String) (a b : A)
    → ((a b : A) → le a b ≡ false → le b a ≡ true)
    → (if str_eq s t then le a b else str_le s t) ≡ false
    → (if str_eq t s then le b a else str_le t s) ≡ true
lexical_total le s t a b total h =
    ground (arith, eq_iff s t, eq_iff t s, total a b, str_le_total s t)

pub leb_ℤ_total : (a b : ℤ) → leb_ℤ a b ≡ false → leb_ℤ b a ≡ true
leb_ℤ_total a b h = ground arith
