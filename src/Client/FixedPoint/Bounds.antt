-- ===== src/Client/FixedPoint/Bounds.antt =====
-- The laws on how large a number is, of the numbers to a tenth.
use pong_pp.Common.{ℕ, zero, suc, ◌+◌, ◌*◌, ◌/◌, ◌≤◌, ◌<◌, ◌≡◌, refl, Bool, true, false, arith}
use native.Mathlib.Nat.{mul-le-mul, mul-le-mul_left, div-mul-le_self}
use pong_pp.Common.Int.{ℤ, pos, negsuc, magnitude}
use pong_pp.Client.Wire.{signed}
use pong_pp.Client.Float.{HasBounds}
use pong_pp.Client.FixedPoint.{fixed_point, is_negative, differ, minus, negate, plus, below}

minus-magnitude : (a b : ℕ) → magnitude (minus a b) ≤ a + b
minus-magnitude a b = ground arith

plus-magnitude : (x y : ℤ) → magnitude (plus x y) ≤ magnitude x + magnitude y
plus-magnitude (pos a) (pos b) = omega arith
plus-magnitude (pos a) (negsuc b) = minus-magnitude a (suc b)
plus-magnitude (negsuc a) (pos b) = let h = minus-magnitude b (suc a) in omega arith
plus-magnitude (negsuc a) (negsuc b) = omega arith

negate-magnitude : (x : ℤ) → magnitude (negate x) ≡ magnitude x
negate-magnitude (pos zero) = refl
negate-magnitude (pos (suc n)) = refl
negate-magnitude (negsuc n) = refl

signed-magnitude : (b : Bool) (n : ℕ) → magnitude (signed b n) ≡ n
unfolding signed
signed-magnitude false n = refl
signed-magnitude true zero = refl
signed-magnitude true (suc n) = refl

product_below : (a b x y : ℕ) → x ≤ 10 * a → y ≤ 10 * b → x * y / 10 ≤ 10 * (a * b)
product_below a b x y h h' =
    let all = mul-le-mul h h' in
    let e : 10 * a * (10 * b) ≡ 100 * (a * b) = omega arith in omega arith

quotient_below : (a b x : ℕ) → 0 < b → x ≤ 10 * a → x * 10 / (10 * b) ≤ 10 * a
quotient_below a b x h h' =
    let q = x * 10 / (10 * b) in
    let all = div-mul-le_self (x * 10) (10 * b) in
    let one = mul-le-mul_left q (let ten : 10 ≤ 10 * b = omega arith in ten) in omega arith

between :
    (a b : ℕ) (x : ℤ)
    → a ≤ b
    → below x (pos (10 * a)) ≡ false
    → below (pos (10 * b)) x ≡ false
    → magnitude x ≤ 10 * b
between a b (pos n) h low high = ground arith
between a b (negsuc n) h low high = ground arith

around :
    (a b : ℕ) (x : ℤ)
    → a ≤ b
    → below x (negate (pos (10 * a))) ≡ false
    → below (pos (10 * b)) x ≡ false
    → magnitude x ≤ 10 * b
around a b (pos n) h low high = ground arith
around zero b (negsuc n) h low high = ground arith
around (suc a) b (negsuc n) h low high = ground arith

sign_of_sum : (x y : ℤ) → below (plus x y) (pos 0) ≡ below x (negate y)
sign_of_sum (pos a) (pos zero) = ground arith
sign_of_sum (pos a) (pos (suc b)) = ground arith
sign_of_sum (pos a) (negsuc b) = ground arith
sign_of_sum (negsuc a) (pos zero) = ground arith
sign_of_sum (negsuc a) (pos (suc b)) = ground arith
sign_of_sum (negsuc a) (negsuc b) = ground arith

pub fixed_point-HasBounds : HasBounds fixed_point
unfolding signed
fixed_point-HasBounds = record {
  Bounded = λ n x. magnitude x ≤ 10 * n;
  bounded_more = λ a b x h all. omega arith;
  bounded_num = λ a h. omega arith;
  bounded_tenths = λ a h. omega arith;
  bounded_neg = λ a x all. rw (negate-magnitude x) all;
  bounded_add = λ a b x y h hx hy. let few = plus-magnitude x y in omega arith;
  bounded_sub = λ a b x y h hx hy.
      let few = plus-magnitude x (negate y) in let e = negate-magnitude y in omega arith;
  bounded_mul = λ a b x y h hx hy.
      rw
        (signed-magnitude (differ (is_negative x) (is_negative y)) (magnitude x * magnitude y / 10))
        (product_below a b (magnitude x) (magnitude y) hx hy);
  bounded_div = λ a b x some_b h hx.
      rw (signed-magnitude (differ (is_negative x) false) (magnitude x * 10 / (10 * b)))
        (quotient_below a b (magnitude x) some_b hx);
  bounded_of_int = λ z h. rw (signed-magnitude (is_negative z) (10 * magnitude z)) (omega arith);
  bounded_to_int = λ a x hx. rw (signed-magnitude (is_negative x) (magnitude x / 10)) (omega arith);
  bounded_from = λ n a b x h small hx low high. between a b x h low high;
  bounded_around = λ n a b x h small hx low high. around a b x h low high;
  add_lt_zero = sign_of_sum;
}
