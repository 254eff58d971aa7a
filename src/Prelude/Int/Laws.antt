-- ===== src/Prelude/Int/Laws.antt =====
-- Laws of the integers. Sums and orders go through the two parts of an integer, which are numbers
-- that `omega` reads; products through the ring laws.
use Prim.Native.Nat.{ℕ, zero, suc, ◌+◌, ◌*◌, ◌/◌, ◌≤◌, ◌<◌}
use mathlib.Core.Path.{◌≡◌, ap, sym, subst}
use mathlib.Core.Logic.{◌↔◌}
use mathlib.Core.Bool.{true}
use mathlib.Core.List.{List, [], ◌∷◌, ◌++◌}
use native.Mathlib.Omega.{arith}
use native.Mathlib.Nat.{div-mul-le_self, lt-div-mul-add}
use bms_gui.Prelude.Int.Defs.{
  ℤ, pos, negsuc, pos_part, neg_part, ◌+ℤ◌, ◌-ℤ◌, ◌*ℤ◌, neg, ◌≤ℤ◌, ◌<ℤ◌, eqb_ℤ, floor_div, sum,
  sub_ℕ,
}

-- One lemma for each operation lets `omega` work with the operations shut, at any depth.
pub +ℤ_parts :
    (a b : ℤ)
    → pos_part (a +ℤ b) + neg_part a + neg_part b ≡ neg_part (a +ℤ b) + pos_part a + pos_part b
unfolding ◌+ℤ◌
+ℤ_parts a b = ground arith

pub -ℤ_parts :
    (a b : ℤ)
    → pos_part (a -ℤ b) + neg_part a + pos_part b ≡ neg_part (a -ℤ b) + pos_part a + neg_part b
unfolding ◌-ℤ◌
-ℤ_parts a b = ground arith

pub neg_parts : (a : ℤ) → pos_part (neg a) + pos_part a ≡ neg_part (neg a) + neg_part a
unfolding neg
neg_parts a = ground arith

pub eq_of_parts : (a b : ℤ) → pos_part a + neg_part b ≡ pos_part b + neg_part a → a ≡ b
eq_of_parts a b h = ground arith

pub eqb_ℤ_iff : (a b : ℤ) → (eqb_ℤ a b ≡ true) ↔ (a ≡ b)
eqb_ℤ_iff a b = ground arith

pub ruleset int_laws = (arith, +ℤ_parts, -ℤ_parts, neg_parts, eq_of_parts)

pub zero-+ℤ : (a : ℤ) → pos 0 +ℤ a ≡ a
zero-+ℤ a = omega int_laws

pub +ℤ_assoc : (a b c : ℤ) → a +ℤ b +ℤ c ≡ a +ℤ (b +ℤ c)
+ℤ_assoc a b c = omega int_laws

pub sum-append : (xs ys : List ℤ) → sum (xs ++ ys) ≡ sum xs +ℤ sum ys
unfolding sum
sum-append [] ys = omega int_laws
sum-append (x ∷ xs) ys = rw (sum-append xs ys) (omega int_laws)

pub *ℤ_parts :
    (a b : ℤ)
    → pos_part (a *ℤ b) + (pos_part a * neg_part b + neg_part a * pos_part b)
      ≡ neg_part (a *ℤ b) + (pos_part a * pos_part b + neg_part a * neg_part b)
unfolding ◌*ℤ◌
*ℤ_parts a b = ground arith

-- Python's `//` by a positive number is the floor.
pub floor_div-mul-le : (a : ℤ) (k : ℕ) → floor_div a (pos (suc k)) *ℤ pos (suc k) ≤ℤ a
unfolding floor_div ◌*ℤ◌
floor_div-mul-le (pos a) k = ground (arith, div-mul-le_self a (suc k))
floor_div-mul-le (negsuc a) k =
    ground (arith, lt-div-mul-add {a = a + suc k} {b = suc k} (omega arith))

pos-+ℤ : (n : ℕ) → pos n +ℤ pos 1 ≡ pos (suc n)
pos-+ℤ n = omega int_laws

neg-+ℤ : (d : ℕ) → sub_ℕ 0 (suc d) +ℤ pos 1 ≡ sub_ℕ 0 d
unfolding ◌+ℤ◌
neg-+ℤ d = ground arith

lt-pos-mul : (a q k : ℕ) → a < q * suc k → pos a <ℤ pos q *ℤ pos (suc k)
unfolding ◌*ℤ◌
lt-pos-mul a q k h = ground arith

lt-neg-mul : (a d k : ℕ) → d * suc k ≤ a → negsuc a <ℤ sub_ℕ 0 d *ℤ pos (suc k)
unfolding ◌*ℤ◌
lt-neg-mul a d k h = ground arith

lt-pos-neg : (a q k : ℕ) → negsuc a <ℤ pos q *ℤ pos (suc k)
unfolding ◌*ℤ◌
lt-pos-neg a q k = ground arith

lt-sub_ℕ : (a c k : ℕ) → c * suc k ≤ a + suc k → negsuc a <ℤ (sub_ℕ 0 c +ℤ pos 1) *ℤ pos (suc k)
lt-sub_ℕ a zero k h = subst (λ x. negsuc a <ℤ x *ℤ pos (suc k)) (sym (pos-+ℤ 0)) (lt-pos-neg a 1 k)
lt-sub_ℕ a (suc c) k h =
    subst (λ x. negsuc a <ℤ x *ℤ pos (suc k)) (sym (neg-+ℤ c)) (lt-neg-mul a c k (ground arith))

pub lt-floor_div-mul : (a : ℤ) (k : ℕ) → a <ℤ (floor_div a (pos (suc k)) +ℤ pos 1) *ℤ pos (suc k)
unfolding floor_div
lt-floor_div-mul (pos a) k =
    rw (pos-+ℤ (a / suc k))
      (lt-pos-mul a _ k (ground (arith, lt-div-mul-add {a = a} {b = suc k} (omega arith))))
lt-floor_div-mul (negsuc a) k = lt-sub_ℕ a _ k (ground (arith, div-mul-le_self (a + suc k) (suc k)))

-- A product distributes over a sum.
pub +ℤ-*ℤ : (a b c : ℤ) → (a +ℤ b) *ℤ c ≡ a *ℤ c +ℤ b *ℤ c
+ℤ-*ℤ a b c =
    let s = a +ℤ b in
    let h = +ℤ_parts a b in
    let up = ap (λ x. x * pos_part c) h in
    let down = ap (λ x. x * neg_part c) h in omega (int_laws, *ℤ_parts, up, down)
