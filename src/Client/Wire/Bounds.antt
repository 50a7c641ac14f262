-- ===== src/Client/Wire/Bounds.antt =====
-- The buffers of src/client/main.cpp that numbers are written to: `tmp` of `int_to_str`, and
-- `send_buf`, which has 128 bytes.
use pong_pp.Common.{
  false, ℕ, zero, suc, ◌+◌, ◌*◌, ◌/◌, ◌^◌, ◌<◌, ◌≤◌, ◌≡◌, refl, ◌∙◌, ap, inl, inr, Bool-cases, List,
  [], ◌∷◌, length, length-append, All, arith, ◌==◌,
}
use pong_pp.Common.Int.{ℤ, pos, negsuc}
use pong_pp.Client.Wire.{low_digits, backwards, int_to_str, fields, message}
use pong_pp.Client.Wire.RoundTrip.{FitsInt}

abbrev pub ten_to : ℕ → ℕ
ten_to zero = 1
ten_to (suc k) = 10 * ten_to k

-- A number below 10 ^ k has at most k digits.
pub length-low_digits : (k fuel n : ℕ) → n < ten_to k → length (low_digits fuel n) ≤ k
unfolding low_digits
length-low_digits k zero n h = omega arith
length-low_digits zero (suc fuel) n h = ground arith
length-low_digits (suc k) (suc fuel) n h = elim (Bool-cases (n == 0)) [
  | inl e ↦ rw e (omega arith)
  | inr e ↦ rw e (let rest = length-low_digits k fuel (n / 10) (omega arith) in omega arith)
]

pub length-backwards : (s : List ℕ) → length (backwards s) ≡ length s
unfolding backwards
length-backwards [] = refl
length-backwards (c ∷ s) =
    length-append (backwards s) (c ∷ []) ∙ ap (λ n. n + 1) (length-backwards s) ∙ omega arith

digits_fit : (fuel n : ℕ) → n < 2 ^ 31 → length (backwards (low_digits fuel n)) ≤ 10
digits_fit fuel n h =
    let few = length-low_digits 10 fuel n (omega arith) in
    rw (length-backwards (low_digits fuel n)) few

length-int_to_str : (z : ℤ) → FitsInt z → length (int_to_str z) ≤ 11
unfolding int_to_str FitsInt
length-int_to_str (pos n) h = elim (Bool-cases (n == 0)) [
  | inl e ↦ rw e (omega arith)
  | inr e ↦ rw e (let few = digits_fit (suc n) n h in omega arith)
]
length-int_to_str (negsuc n) h = let few = digits_fit (suc (suc n)) (suc n) h in omega arith

length-fields : (values : List ℤ) → All FitsInt values → length (fields values) ≤ 12 * length values
unfolding fields
length-fields [] fits = omega arith
length-fields (z ∷ values) fits =
    let one = length-int_to_str z fits.0 in
    let rest = length-fields values fits.1 in
    rw (length-append (int_to_str z) (fields values)) (omega arith)

-- A message takes at most twelve bytes for each value, all of them below 2 ^ 31 and above -2 ^ 31,
-- and one for the tag: 97 for the eight values of a snapshot.
pub length-message :
    (tag : ℕ) (values : List ℤ)
    → All FitsInt values
    → length (message tag values) ≤ 12 * length values + 1
unfolding message
length-message tag values fits = let all = length-fields values fits in omega arith

-- A number from 10 ^ k on has more than k digits.
low_digits-length : (k fuel n : ℕ) → n < fuel → ten_to k ≤ n → k < length (low_digits fuel n)
unfolding low_digits
low_digits-length k zero n h big = absurd (omega arith)
low_digits-length zero (suc fuel) n h big = elim (Bool-cases (n == 0)) [
  | inl e ↦ absurd (let eq : n ≡ 0 = ground arith in omega arith)
  | inr e ↦ rw e (omega arith)
]
low_digits-length (suc k) (suc fuel) n h big = elim (Bool-cases (n == 0)) [
  | inl e ↦ absurd (let eq : n ≡ 0 = ground arith in let some_digit = ten_to_pos k in omega arith)
  | inr e ↦
      rw e
        (let rest = low_digits-length k fuel (n / 10) (ground arith) (omega arith) in omega arith)
]
  where
    ten_to_pos : (k : ℕ) → 0 < ten_to k
    ten_to_pos zero = omega arith
    ten_to_pos (suc k) = omega (arith, ten_to_pos k)

-- The text of a number that is not negative has at most 8 bytes if and only if the number is below
-- 10 ^ 8.
pub score_fits : (n : ℕ) → n < ten_to 8 → length (int_to_str (pos n)) ≤ 8
unfolding int_to_str
score_fits n h = elim (Bool-cases (n == 0)) [
  | inl e ↦ rw e (omega arith)
  | inr e ↦ rw (e, length-backwards (low_digits (suc n) n)) (length-low_digits 8 (suc n) n h)
]

pub score_overflows : (n : ℕ) → ten_to 8 ≤ n → 8 < length (int_to_str (pos n))
unfolding int_to_str
score_overflows n h =
    rw (nonzero, length-backwards (low_digits (suc n) n))
      (low_digits-length 8 (suc n) n (omega arith) h)
  where
    nonzero : (n == 0) ≡ false
    nonzero = ground arith
