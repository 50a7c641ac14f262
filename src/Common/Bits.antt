-- ===== src/Common/Bits.antt =====
-- The bit operations of C at variables: the lowest digit of each, and what follows from it by
-- induction on the number of digits.
use Prim.Native.Nat.{
  ℕ, zero, suc, ◌+◌, ◌-◌, ◌*◌, ◌/◌, ◌%◌, ◌^◌, ◌≤◌, ◌<◌, min, max, bit_and, bit_or, bit_xor, digits,
  bitwise, differ, bit_and-bitwise, bit_or-bitwise, bit_xor-bitwise,
}
use mathlib.Core.Path.{◌≡◌, refl, sym}
use native.Mathlib.Nat.{
  pow-suc, one-le-pow, mod-lt, mod-eq_of_lt, mod-add-div', add-mul-mod_self_right,
}
use native.Mathlib.Omega.{arith}

module _ (z : ℕ → ℕ) (f : ℕ → ℕ → ℕ) where
  -- Any count of digits that covers the first number gives the same result.
  digits_enough : (m n a b : ℕ) → a ≤ m → a ≤ n → digits z f m a b ≡ digits z f n a b
  digits_enough zero zero a b p q = refl
  digits_enough (suc m) (suc n) zero b p q = refl
  digits_enough (suc m) (suc n) (suc a) b p q =
      rw (digits_enough m n (suc a / 2) (b / 2) (omega arith) (omega arith))
  digits_enough zero (suc n) zero b p q = refl
  digits_enough zero (suc n) (suc a) b p q = absurd (omega arith)
  digits_enough (suc m) zero zero b p q = refl
  digits_enough (suc m) zero (suc a) b p q = absurd (omega arith)

  bitwise_lowest :
      (a b : ℕ)
      → z b ≡ z (b / 2) * 2 + f 0 (b % 2)
      → bitwise z f a b ≡ bitwise z f (a / 2) (b / 2) * 2 + f (a % 2) (b % 2)
  bitwise_lowest zero b h = h
  bitwise_lowest (suc a) b h =
      rw (digits_enough a (suc a / 2) (suc a / 2) (b / 2) (omega arith) (omega arith))

pub bit_or_lowest : (a b : ℕ) → bit_or a b ≡ bit_or (a / 2) (b / 2) * 2 + max (a % 2) (b % 2)
bit_or_lowest a b = simp bit_or-bitwise (bitwise_lowest (λ b. b) max a b (omega arith))

pub bit_and_lowest : (a b : ℕ) → bit_and a b ≡ bit_and (a / 2) (b / 2) * 2 + min (a % 2) (b % 2)
bit_and_lowest a b = simp bit_and-bitwise (bitwise_lowest (λ b. 0) min a b (omega arith))

pub bit_xor_lowest : (a b : ℕ) → bit_xor a b ≡ bit_xor (a / 2) (b / 2) * 2 + differ (a % 2) (b % 2)
bit_xor_lowest a b = simp bit_xor-bitwise (bitwise_lowest (λ b. b) differ a b (omega arith))

abbrev IsDigit : ℕ → Type 0
IsDigit d = d < 2

differ_digits : (a b : ℕ) → IsDigit a → IsDigit b → differ a b ≡ (a + b) % 2
differ_digits zero b p q = omega arith
differ_digits (suc zero) zero p q = refl
differ_digits (suc zero) (suc zero) p q = refl
differ_digits (suc zero) (suc (suc b)) p q = absurd (omega arith)
differ_digits (suc (suc a)) b p q = absurd (omega arith)

pub bit_xor_sum : (a b : ℕ) → bit_xor a b ≡ bit_xor (a / 2) (b / 2) * 2 + (a % 2 + b % 2) % 2
bit_xor_sum a b =
    omega (arith, bit_xor_lowest a b, differ_digits (a % 2) (b % 2) (omega arith) (omega arith))

or_nothing : (n a : ℕ) → a ≤ n → bit_or a 0 ≡ a
or_nothing zero zero h = refl
or_nothing zero (suc a) h = absurd (omega arith)
or_nothing (suc n) a h = omega (arith, bit_or_lowest a 0, or_nothing n (a / 2) (omega arith))

and_nothing : (n a : ℕ) → a ≤ n → bit_and a 0 ≡ 0
and_nothing zero zero h = refl
and_nothing zero (suc a) h = absurd (omega arith)
and_nothing (suc n) a h = omega (arith, bit_and_lowest a 0, and_nothing n (a / 2) (omega arith))

double_shift : (q k : ℕ) → q * 2 ^ suc k ≡ 2 * (q * 2 ^ k)
double_shift q k = rw (pow-suc 2 k) (grind arith)

-- A shifted word and a word that fits below it: `|` is `+`.
pub bit_or_shifted : (k q r : ℕ) → r < 2 ^ k → bit_or (q * 2 ^ k) r ≡ q * 2 ^ k + r
bit_or_shifted zero q zero h = omega (arith, or_nothing (q * 1) (q * 1) (omega arith))
bit_or_shifted zero q (suc r) h = absurd (omega arith)
bit_or_shifted (suc k) q r h =
    let split = double_shift q k in
    let half = pow-suc 2 k in
    let e : q * 2 ^ suc k / 2 ≡ q * 2 ^ k = omega (arith, split) in
    let ih = bit_or_shifted k q (r / 2) (omega (arith, half)) in
    rw (bit_or_lowest (q * 2 ^ suc k) r, e, ih) (omega (arith, split))

mod_unique : (a q m r : ℕ) → a ≡ r + q * m → r < m → a % m ≡ r
mod_unique a q m r e h = rw (e, add-mul-mod_self_right r q m) (mod-eq_of_lt h)

lowest_and_rest : (a m : ℕ) → 1 ≤ m → a % (m * 2) ≡ a / 2 % m * 2 + a % 2
lowest_and_rest a m h =
    let split = mod-add-div' (a / 2) m in
    let fits = mod-lt (a / 2) {m = m} h in
    mod_unique a (a / 2 / m) (m * 2) (a / 2 % m * 2 + a % 2) (grind arith) (omega arith)

-- A mask of the `k` low digits is the remainder by `2 ^ k`.
pub bit_and_low : (k a : ℕ) → bit_and a (2 ^ k - 1) ≡ a % 2 ^ k
bit_and_low zero a = omega (arith, and_nothing a a (omega arith))
bit_and_low (suc k) a =
    let half = pow-suc 2 k in
    let some_power = one-le-pow k 2 (omega arith) in
    let e : (2 ^ suc k - 1) / 2 ≡ 2 ^ k - 1 = omega (arith, half, some_power) in
    let odd : min (a % 2) ((2 ^ suc k - 1) % 2) ≡ a % 2 = omega (arith, half, some_power) in
    rw (bit_and_lowest a (2 ^ suc k - 1), e, odd, bit_and_low k (a / 2), half)
      (sym (lowest_and_rest a (2 ^ k) some_power))

-- Exclusive or with the same word twice is the identity.
xor_twice : (n a b : ℕ) → a ≤ n → b ≤ n → bit_xor (bit_xor a b) b ≡ a
xor_twice zero zero zero p q = refl
xor_twice zero zero (suc b) p q = absurd (omega arith)
xor_twice zero (suc a) b p q = absurd (omega arith)
xor_twice (suc n) a b p q =
    let ih = xor_twice n (a / 2) (b / 2) (omega arith) (omega arith) in
    let e : bit_xor a b / 2 ≡ bit_xor (a / 2) (b / 2) = omega (arith, bit_xor_sum a b) in
    rw (bit_xor_sum (bit_xor a b) b, e, ih) (omega (arith, bit_xor_sum a b))

pub bit_xor_twice : (a b : ℕ) → bit_xor (bit_xor a b) b ≡ a
bit_xor_twice a b = xor_twice (a + b) a b (omega arith) (omega arith)

-- The bound of a word, for the operations that can reach it.
pub bit_xor-lt : (k a b : ℕ) → a < 2 ^ k → b < 2 ^ k → bit_xor a b < 2 ^ k
bit_xor-lt zero zero zero p q = omega arith
bit_xor-lt zero zero (suc b) p q = absurd (omega arith)
bit_xor-lt zero (suc a) b p q = absurd (omega arith)
bit_xor-lt (suc k) a b p q =
    let half = pow-suc 2 k in
    omega (
      arith,
      half,
      bit_xor_sum a b,
      bit_xor-lt k (a / 2) (b / 2) (omega (arith, half)) (omega (arith, half)),
    )

pub bit_or-lt : (k a b : ℕ) → a < 2 ^ k → b < 2 ^ k → bit_or a b < 2 ^ k
bit_or-lt zero zero zero p q = omega arith
bit_or-lt zero zero (suc b) p q = absurd (omega arith)
bit_or-lt zero (suc a) b p q = absurd (omega arith)
bit_or-lt (suc k) a b p q =
    let half = pow-suc 2 k in
    omega (
      arith,
      half,
      bit_or_lowest a b,
      bit_or-lt k (a / 2) (b / 2) (omega (arith, half)) (omega (arith, half)),
    )
