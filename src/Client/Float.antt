-- ===== src/Client/Float.antt =====
-- All that src/client/main.cpp does with a `float`. The type and its operations are a parameter; the
-- laws are those of IEEE 754 on small whole numbers, and of its order, in which NaN is neither below
-- nor above anything.
use pong_pp.Common.{ℕ, ◌+◌, ◌-◌, ◌*◌, ◌≤◌, ◌<◌, ◌≡◌, Bool, false, ltb}
use pong_pp.Common.Int.{ℤ, pos, negsuc, magnitude}

pub record Float (F : Type 0) : Type 0 where
  pub lt : F → F → Bool
  pub add : F → F → F
  pub sub : F → F → F
  pub mul : F → F → F
  pub div : F → F → F
  pub neg : F → F
  -- The literals: whole numbers, and tenths.
  pub num : ℕ → F
  pub tenths : ℕ → F
  -- (float)n and (int)x
  pub of_int : ℤ → F
  pub to_int : F → ℤ

-- Whole numbers are exact up to 2 ^ 24.
abbrev pub exact : ℕ
exact = 16777216

pub record IsFloat {F : Type 0} (float : Float F) : Type 0 where
  pub num_lt : (a b : ℕ) → a ≤ exact → b ≤ exact → float.lt (float.num a) (float.num b) ≡ ltb a b
  pub num_add :
      (a b : ℕ) → a + b ≤ exact → float.add (float.num a) (float.num b) ≡ float.num (a + b)
  pub num_sub :
      (a b : ℕ) → b ≤ a → a ≤ exact → float.sub (float.num a) (float.num b) ≡ float.num (a - b)
  pub num_half : (a : ℕ) → 2 * a ≤ exact → float.div (float.num (2 * a)) (float.num 2) ≡ float.num a
  pub one_mul : (x : F) → float.mul (float.of_int (pos 1)) x ≡ x
  pub minus_one_mul : (x : F) → float.mul (float.of_int (negsuc 0)) x ≡ float.neg x
  -- A number is not above its negative's mirror image.
  pub neg_lt : (x y : F) → float.lt (float.neg x) (float.neg y) ≡ float.lt y x
  pub neg_lt_num :
      (a b : ℕ) → a ≤ exact → b ≤ exact → float.lt (float.num a) (float.neg (float.num b)) ≡ false

-- The laws of IEEE 754 on how large a number is: `Bounded n x` stands for an `x` that is a number,
-- not above `n` and not below its negative. The operations round, and a whole number is its own
-- rounding.
pub record HasBounds {F : Type 0} (float : Float F) : Type 1 where
  pub Bounded : ℕ → F → Type 0
  pub bounded_more : (a b : ℕ) (x : F) → a ≤ b → Bounded a x → Bounded b x
  pub bounded_num : (a : ℕ) → a ≤ exact → Bounded a (float.num a)
  pub bounded_tenths : (a : ℕ) → a ≤ exact → Bounded a (float.tenths a)
  pub bounded_neg : (a : ℕ) (x : F) → Bounded a x → Bounded a (float.neg x)
  pub bounded_add :
      (a b : ℕ) (x y : F)
      → a + b ≤ exact
      → Bounded a x
      → Bounded b y
      → Bounded (a + b) (float.add x y)
  pub bounded_sub :
      (a b : ℕ) (x y : F)
      → a + b ≤ exact
      → Bounded a x
      → Bounded b y
      → Bounded (a + b) (float.sub x y)
  pub bounded_mul :
      (a b : ℕ) (x y : F)
      → a * b ≤ exact
      → Bounded a x
      → Bounded b y
      → Bounded (a * b) (float.mul x y)
  pub bounded_div :
      (a b : ℕ) (x : F) → 0 < b → b ≤ exact → Bounded a x → Bounded a (float.div x (float.num b))
  pub bounded_of_int : (z : ℤ) → magnitude z ≤ exact → Bounded (magnitude z) (float.of_int z)
  pub bounded_to_int : (a : ℕ) (x : F) → Bounded a x → magnitude (float.to_int x) ≤ a
  -- A number between two others.
  pub bounded_from :
      (n a b : ℕ) (x : F)
      → a ≤ b
      → b ≤ exact
      → Bounded n x
      → float.lt x (float.num a) ≡ false
      → float.lt (float.num b) x ≡ false
      → Bounded b x
  pub bounded_around :
      (n a b : ℕ) (x : F)
      → a ≤ b
      → b ≤ exact
      → Bounded n x
      → float.lt x (float.neg (float.num a)) ≡ false
      → float.lt (float.num b) x ≡ false
      → Bounded b x
  -- The sign of a sum is exact.
  pub add_lt_zero : (x y : F) → float.lt (float.add x y) (float.num 0) ≡ float.lt x (float.neg y)
