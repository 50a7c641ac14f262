-- ===== src/Client/FixedPoint.antt =====
-- Numbers to a tenth in place of floating point: the laws that are asked of a `float` can be met.
pub mod Bounds
use pong_pp.Common.{
  ℕ, zero, suc, ◌+◌, ◌-◌, ◌*◌, ◌/◌, ◌≤◌, ◌≡◌, refl, ◌∙◌, ap, Bool, true, false, not, ltb, leb,
  arith, if◌then◌else◌,
}
use pong_pp.Common.Int.{ℤ, pos, negsuc, magnitude}
use pong_pp.Client.Wire.{signed}
use pong_pp.Client.Float.{Float, IsFloat}

abbrev pub is_negative : ℤ → Bool
is_negative (pos n) = false
is_negative (negsuc n) = true

abbrev pub differ : Bool → Bool → Bool
differ false b = b
differ true b = not b

-- A difference of two numbers.
abbrev pub minus : ℕ → ℕ → ℤ
minus a b = if leb b a then pos (a - b) else negsuc (b - a - 1)

abbrev pub negate : ℤ → ℤ
negate (pos zero) = pos 0
negate (pos (suc n)) = negsuc n
negate (negsuc n) = pos (suc n)

abbrev pub plus : ℤ → ℤ → ℤ
plus (pos a) (pos b) = pos (a + b)
plus (pos a) (negsuc b) = minus a (suc b)
plus (negsuc a) (pos b) = minus b (suc a)
plus (negsuc a) (negsuc b) = negsuc (a + b + 1)

abbrev pub below : ℤ → ℤ → Bool
below (pos a) (pos b) = ltb a b
below (pos a) (negsuc b) = false
below (negsuc a) (pos b) = true
below (negsuc a) (negsuc b) = ltb b a

instance abbrev pub fixed_point : Float ℤ
fixed_point = record {
  lt = below;
  add = plus;
  sub = λ a b. plus a (negate b);
  mul = λ a b. signed (differ (is_negative a) (is_negative b)) (magnitude a * magnitude b / 10);
  div = λ a b. signed (differ (is_negative a) (is_negative b)) (magnitude a * 10 / magnitude b);
  neg = negate;
  num = λ n. pos (10 * n);
  tenths = pos;
  of_int = λ z. signed (is_negative z) (10 * magnitude z);
  to_int = λ x. signed (is_negative x) (magnitude x / 10);
}

below_num : (a b : ℕ) → ltb (10 * a) (10 * b) ≡ ltb a b
below_num a b = ground arith

minus_num : (a b : ℕ) → b ≤ a → plus (pos (10 * a)) (negate (pos (10 * b))) ≡ pos (10 * (a - b))
minus_num a zero h = ap pos (omega arith)
minus_num a (suc b) h = ap (λ t. plus (pos (10 * a)) (negate (pos t))) next ∙ minus_next
  where
    next : 10 * suc b ≡ suc (10 * b + 9)
    next = omega arith

    minus_next : minus (10 * a) (suc (10 * b + 9)) ≡ pos (10 * (a - suc b))
    minus_next = ground arith

half_num : (a : ℕ) → signed false (10 * (2 * a) * 10 / 20) ≡ pos (10 * a)
unfolding signed
half_num a = ap pos (omega arith)

tenfold : (n : ℕ) → 10 * n / 10 ≡ n
tenfold n = omega arith

one_times : (x : ℤ) → signed (differ false (is_negative x)) (10 * magnitude x / 10) ≡ x
unfolding signed
one_times (pos n) = ap pos (omega arith)
one_times (negsuc n) = ap (signed true) (tenfold (suc n))

minus_one_times : (x : ℤ) → signed (differ true (is_negative x)) (10 * magnitude x / 10) ≡ negate x
unfolding signed
minus_one_times (pos zero) = refl
minus_one_times (pos (suc n)) = ap (signed true) (tenfold (suc n))
minus_one_times (negsuc n) = ap pos (omega arith)

below-negate : (x y : ℤ) → below (negate x) (negate y) ≡ below y x
below-negate x y = ground arith

num_above_negative : (a b : ℕ) → below (pos (10 * a)) (negate (pos (10 * b))) ≡ false
num_above_negative a b = ground arith

pub fixed_point-IsFloat : IsFloat fixed_point
unfolding signed
fixed_point-IsFloat = record {
  num_lt = λ a b h h'. below_num a b;
  num_add = λ a b h. ap pos (omega arith);
  num_sub = λ a b h h'. minus_num a b h;
  num_half = λ a h. half_num a;
  one_mul = one_times;
  minus_one_mul = minus_one_times;
  neg_lt = below-negate;
  neg_lt_num = λ a b h h'. num_above_negative a b;
}
