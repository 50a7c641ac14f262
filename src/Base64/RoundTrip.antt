-- ===== src/Base64/RoundTrip.antt =====
-- `base64_encode` against the decoder, its length and its characters.
use pong_pp.Common.{
  ℕ, ◌+◌, ◌*◌, ◌/◌, ◌%◌, ◌^◌, ◌<◌, ◌≡◌, refl, Bool, true, false, not, Option, none, some, List, [],
  ◌∷◌, length, get_or, AreBytes, arith, ◌==◌, bit_or, u32, ◌<<<◌, ◌>>>◌,
}
use pong_pp.Common.Bits.{bit_or_shifted, bit_and_low}
use pong_pp.Common.Table.{for_all_below, for_all_below_sound}
use pong_pp.Base64.{alphabet, letter, triple, base64_encode}
use pong_pp.Base64.Decode.{letter_value, group_bytes, decode}

-- The letter of a 6-bit value.
abbrev pub nth_letter : ℕ → ℕ
nth_letter v = get_or alphabet v 0

pub letter_digit : (v shift : ℕ) → letter v shift ≡ nth_letter ((v >>> shift) % 64)
unfolding letter
letter_digit v shift = rw (bit_and_low 6 (v >>> shift))

abbrev holds : Option ℕ → ℕ → Bool
holds none v = false
holds (some w) v = w == v

holds_sound : (o : Option ℕ) (v : ℕ) → holds o v ≡ true → o ≡ some v
holds_sound none v h = cc
holds_sound (some w) v h = ground arith

letter_value-nth : (v : ℕ) → v < 64 → letter_value (nth_letter v) ≡ some v
letter_value-nth v h = holds_sound _ v (
    for_all_below_sound 64 (λ v. holds (letter_value (nth_letter v)) v) v
      (unfold for_all_below letter_value in refl) h)

not_padding : (v : ℕ) → v < 64 → (nth_letter v == b'=') ≡ false
not_padding v h = ground (
  arith,
  for_all_below_sound 64 (λ v. not (nth_letter v == b'=')) v (unfold for_all_below in refl) h,
)

group_bytes_three :
    (p q r s : ℕ)
    → p < 64
    → q < 64
    → r < 64
    → s < 64
    → group_bytes (nth_letter p) (nth_letter q) (nth_letter r) (nth_letter s)
      ≡ some ((p * 4 + q / 16) ∷ (q % 16 * 16 + r / 4) ∷ (r % 4 * 64 + s) ∷ [])
unfolding group_bytes
group_bytes_three p q r s hp hq hr hs = rw (
  not_padding r hr,
  not_padding s hs,
  letter_value-nth p hp,
  letter_value-nth q hq,
  letter_value-nth r hr,
  letter_value-nth s hs,
)

group_bytes_two :
    (p q r : ℕ)
    → p < 64
    → q < 64
    → r < 64
    → group_bytes (nth_letter p) (nth_letter q) (nth_letter r) b'='
      ≡ some ((p * 4 + q / 16) ∷ (q % 16 * 16 + r / 4) ∷ [])
unfolding group_bytes
group_bytes_two p q r hp hq hr =
    rw (not_padding r hr, letter_value-nth p hp, letter_value-nth q hq, letter_value-nth r hr)

group_bytes_one :
    (p q : ℕ)
    → p < 64
    → q < 64
    → group_bytes (nth_letter p) (nth_letter q) b'=' b'=' ≡ some ((p * 4 + q / 16) ∷ [])
unfolding group_bytes
group_bytes_one p q hp hq = rw (letter_value-nth p hp, letter_value-nth q hq)

two_bytes :
    (a b : ℕ) → a < 256 → b < 256 → bit_or (u32 (a <<< 16)) (u32 (b <<< 8)) ≡ a * 65536 + b * 256
two_bytes a b p q =
    let e : u32 (a <<< 16) ≡ a * 2 ^ 16 = omega arith in
    let f : u32 (b <<< 8) ≡ b * 256 = omega arith in
    rw (e, f) (omega (arith, bit_or_shifted 16 a (b * 256) (omega arith)))

three_bytes : (a b c : ℕ) → a < 256 → b < 256 → c < 256 → triple a b c ≡ a * 65536 + b * 256 + c
unfolding triple
three_bytes a b c p q r =
    let e : a * 65536 + b * 256 ≡ (a * 256 + b) * 2 ^ 8 = omega arith in
    rw (two_bytes a b p q, e, bit_or_shifted 8 (a * 256 + b) c r) (omega arith)

word_three :
    (v : ℕ)
    → v < 2 ^ 24
    → group_bytes (letter v 18) (letter v 12) (letter v 6) (letter v 0)
      ≡ some (v / 65536 ∷ v / 256 % 256 ∷ v % 256 ∷ [])
word_three v h =
    rw
      (
        letter_digit v 18,
        letter_digit v 12,
        letter_digit v 6,
        letter_digit v 0,
        group_bytes_three (v / 2 ^ 18 % 64) (v / 2 ^ 12 % 64) (v / 2 ^ 6 % 64) (v / 2 ^ 0 % 64)
            (omega arith) (omega arith) (omega arith) (omega arith),
      )
      (ground arith)

word_two :
    (v : ℕ)
    → v < 2 ^ 24
    → group_bytes (letter v 18) (letter v 12) (letter v 6) b'='
      ≡ some (v / 65536 ∷ v / 256 % 256 ∷ [])
word_two v h =
    rw
      (
        letter_digit v 18,
        letter_digit v 12,
        letter_digit v 6,
        group_bytes_two (v / 2 ^ 18 % 64) (v / 2 ^ 12 % 64) (v / 2 ^ 6 % 64) (omega arith)
            (omega arith) (omega arith),
      )
      (ground arith)

word_one :
    (v : ℕ) → v < 2 ^ 24 → group_bytes (letter v 18) (letter v 12) b'=' b'=' ≡ some (v / 65536 ∷ [])
word_one v h =
    rw
      (
        letter_digit v 18,
        letter_digit v 12,
        group_bytes_one (v / 2 ^ 18 % 64) (v / 2 ^ 12 % 64) (omega arith) (omega arith),
      )
      (ground arith)

-- Whatever bytes go in, numbers below 256, the decoder of RFC 4648 reads the result back as them.
pub decode-base64_encode : (xs : List ℕ) → AreBytes xs → decode (base64_encode xs) ≡ some xs
unfolding decode base64_encode
decode-base64_encode [] h = refl
decode-base64_encode (a ∷ []) h = rw (word_one (u32 (a <<< 16)) (omega arith)) (ground arith)
decode-base64_encode (a ∷ b ∷ []) h =
    rw (two_bytes a b h.0 h.1.0, word_two (a * 65536 + b * 256) (omega arith)) (ground arith)
decode-base64_encode (a ∷ b ∷ c ∷ xs) h =
    rw
      (
        three_bytes a b c h.0 h.1.0 h.1.1.0,
        decode-base64_encode xs h.1.1.1,
        word_three (a * 65536 + b * 256 + c) (omega arith),
      )
      (ground arith)

-- Four characters come out for each three bytes begun: the size that is reserved for the result.
pub length-base64_encode : (xs : List ℕ) → length (base64_encode xs) ≡ (length xs + 2) / 3 * 4
unfolding base64_encode
length-base64_encode [] = omega arith
length-base64_encode (a ∷ []) = omega arith
length-base64_encode (a ∷ b ∷ []) = omega arith
length-base64_encode (a ∷ b ∷ c ∷ xs) = omega (arith, length-base64_encode xs)
