-- ===== src/Ws/Frame/RoundTrip/Parts.antt =====
-- The header bytes, the length field and the mask of a frame, each read back.
use pong_pp.Common.{
  ℕ, suc, ◌+◌, ◌*◌, ◌/◌, ◌%◌, ◌^◌, ◌<◌, ◌≡◌, refl, ap, some, List, [], ◌∷◌, ◌++◌, length, get_or,
  arith, ltb, bit_and, bit_or, u64, ◌<<<◌, Bool-cases, inl, inr,
}
use pong_pp.Common.Bits.{bit_and_low, bit_or_shifted, bit_xor_twice}
use pong_pp.Common.Table.{for_all_below, agree_below}
use pong_pp.Ws.Frame.{length_loop, read_length, unmask}
use pong_pp.Ws.Frame.Client.{masked, eight_bytes, length_field}

-- The masks of `parse_frame`, over all bytes.
pub top_bit : (b : ℕ) → b < 256 → bit_and b 0x80 ≡ b / 128 * 128
top_bit b h =
    agree_below 256 (λ b. bit_and b 0x80) (λ b. b / 128 * 128) b (unfold for_all_below in refl) h

pub reserved_bits : (b : ℕ) → b < 256 → bit_and b 0x70 ≡ b / 16 % 8 * 16
reserved_bits b h =
    agree_below 256 (λ b. bit_and b 0x70) (λ b. b / 16 % 8 * 16) b (unfold for_all_below in refl) h

-- One byte more of a number that is read from the front.
pub next_byte : (q b n : ℕ) → n < 2 ^ 64 → q ≡ n / 256 → b ≡ n % 256 → bit_or (u64 (q <<< 8)) b ≡ n
next_byte q b n h e f =
    let whole : u64 (q <<< 8) ≡ q * 2 ^ 8 = omega arith in
    rw whole (omega (arith, bit_or_shifted 8 q b (omega arith)))

pub length_loop-eight_bytes :
    (x y n : ℕ) (rest : List ℕ) → n < 2 ^ 64 → length_loop 8 0 (x ∷ y ∷ eight_bytes n ++ rest) 0 ≡ n
unfolding length_loop
length_loop-eight_bytes x y n rest h =
    rw
      (
        next_byte 0 (n / 2 ^ 56 % 256) (n / 2 ^ 56) (omega arith) (omega arith) (omega arith),
        next_byte (n / 2 ^ 56) (n / 2 ^ 48 % 256) (n / 2 ^ 48) (omega arith) (omega arith)
            (omega arith),
        next_byte (n / 2 ^ 48) (n / 2 ^ 40 % 256) (n / 2 ^ 40) (omega arith) (omega arith)
            (omega arith),
        next_byte (n / 2 ^ 40) (n / 2 ^ 32 % 256) (n / 2 ^ 32) (omega arith) (omega arith)
            (omega arith),
        next_byte (n / 2 ^ 32) (n / 2 ^ 24 % 256) (n / 2 ^ 24) (omega arith) (omega arith)
            (omega arith),
        next_byte (n / 2 ^ 24) (n / 2 ^ 16 % 256) (n / 2 ^ 16) (omega arith) (omega arith)
            (omega arith),
        next_byte (n / 2 ^ 16) (n / 2 ^ 8 % 256) (n / 2 ^ 8) (omega arith) (omega arith)
            (omega arith),
        next_byte (n / 2 ^ 8) (n % 256) n (omega arith) (omega arith) (omega arith),
      )
      refl

-- How many bytes the second byte and the extended length take.
abbrev pub header_size : ℕ → ℕ
header_size n = length (length_field 128 n) + 1

pub read_length-length_field :
    (b0 n : ℕ) (rest : List ℕ)
    → n < 2 ^ 64
    → read_length (b0 ∷ length_field 128 n ++ rest) ≡ some (n, header_size n)
unfolding read_length
read_length-length_field b0 n rest h = elim (Bool-cases (ltb n 126)) [
  | inl short ↦ rw (short, bit_and_low 7 (128 + n)) (ground arith)
  | inr long ↦ elim (Bool-cases (ltb n 65536)) [
    | inl middle ↦ rw (long, middle) (ground (arith, next_byte (n / 256 % 256) (n % 256) n))
    | inr large ↦ rw (long, large, length_loop-eight_bytes b0 255 n rest h) (ground arith)
  ]
]

-- Masking twice with the same key is the identity, wherever in the key it begins.
pub unmask-masked :
    (key : List ℕ) (i : ℕ) (xs : List ℕ)
    → unmask key i (
        masked
          (get_or key (i % 4) 0)
          (get_or key ((i + 1) % 4) 0)
          (get_or key ((i + 2) % 4) 0)
          (get_or key ((i + 3) % 4) 0)
          xs)
      ≡ xs
unfolding unmask masked
unmask-masked key i [] = refl
unmask-masked key i (x ∷ xs) =
    let second : (i + 1 + 1) % 4 ≡ (i + 2) % 4 = omega arith in
    let third : (i + 1 + 2) % 4 ≡ (i + 3) % 4 = omega arith in
    let fourth : (i + 1 + 3) % 4 ≡ i % 4 = omega arith in
    rw (bit_xor_twice x (get_or key (i % 4) 0))
      (ap (◌∷◌ x) (rw (second, third, fourth) at (unmask-masked key (i + 1) xs)))

pub unmask-masked_from_start :
    (a b c d : ℕ) (xs : List ℕ) → unmask (a ∷ b ∷ c ∷ d ∷ []) 0 (masked a b c d xs) ≡ xs
unmask-masked_from_start a b c d xs = unmask-masked (a ∷ b ∷ c ∷ d ∷ []) 0 xs

pub length-masked : (a b c d : ℕ) (xs : List ℕ) → length (masked a b c d xs) ≡ length xs
unfolding masked
length-masked a b c d [] = refl
length-masked a b c d (x ∷ xs) = ap suc (length-masked b c d a xs)
