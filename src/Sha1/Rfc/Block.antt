-- ===== src/Sha1/Rfc/Block.antt =====
-- RFC 3174, sections 3, 5 and 6.1: the words of a block and the 80 rounds, by arithmetic on 32-bit words.
use pong_pp.Common.{
  ℕ, zero, suc, ◌+◌, ◌-◌, ◌*◌, ◌/◌, ◌%◌, ◌^◌, ◌<◌, ◌≤◌, ◌≡◌, List, get_or, take, drop, bit_and,
  bit_or, bit_xor, ltb, if◌then◌else◌,
}
use pong_pp.Sha1.Block.{Hash}

-- S^n(X)
abbrev pub rotated : ℕ → ℕ → ℕ
rotated n x = x * 2 ^ n % 2 ^ 32 + x / 2 ^ (32 - n)

-- NOT X
abbrev pub negated : ℕ → ℕ
negated x = 2 ^ 32 - 1 - x

-- Four bytes from `4 * t` on, the highest first.
unfoldable pub block_word : List ℕ → ℕ → ℕ
block_word block t =
    get_or block (t * 4) 0 * 2 ^ 24
    + get_or block (t * 4 + 1) 0 * 2 ^ 16
    + get_or block (t * 4 + 2) 0 * 2 ^ 8
    + get_or block (t * 4 + 3) 0

-- W(0) to W(79) of a block, steps a and b.
unfoldable pub IsSchedule : List ℕ → (ℕ → ℕ) → Type 0
IsSchedule block w =
    ((t : ℕ) → t < 16 → w t ≡ block_word block t)
    × ((t : ℕ)
        → 16 ≤ t
        → t < 80
        → w t
          ≡ rotated 1
              (bit_xor (bit_xor (bit_xor (w (t - 3)) (w (t - 8))) (w (t - 14))) (w (t - 16))))

-- f(t; B, C, D) and K(t)
abbrev pub f_of : ℕ → ℕ → ℕ → ℕ → ℕ
f_of t b c d =
    if ltb t 20
    then bit_or (bit_and b c) (bit_and (negated b) d)
    else if ltb t 40
    then bit_xor (bit_xor b c) d
    else if ltb t 60
    then bit_or (bit_or (bit_and b c) (bit_and b d)) (bit_and c d)
    else bit_xor (bit_xor b c) d

abbrev pub k_of : ℕ → ℕ
k_of t =
    if ltb t 20
    then 0x5a827999
    else if ltb t 40
    then 0x6ed9eba1
    else if ltb t 60
    then 0x8f1bbcdc
    else 0xca62c1d6

-- Step d for one t.
unfoldable pub one_round : ℕ → ℕ → Hash → Hash
one_round t word v = record {
  a = (rotated 5 v.a + f_of t v.b v.c v.d + v.e + word + k_of t) % 2 ^ 32;
  b = v.a;
  c = rotated 30 v.b;
  d = v.c;
  e = v.d;
}

-- `n` rounds, from `t` on.
unfoldable pub run_rounds : (ℕ → ℕ) → ℕ → ℕ → Hash → Hash
run_rounds w zero t v = v
run_rounds w (suc n) t v = run_rounds w n (t + 1) (one_round t (w t) v)

-- Steps c and e.
abbrev pub compressed : (ℕ → ℕ) → Hash → Hash
compressed w h =
    let v = run_rounds w 80 0 h in
    record {
      a = (h.a + v.a) % 2 ^ 32;
      b = (h.b + v.b) % 2 ^ 32;
      c = (h.c + v.c) % 2 ^ 32;
      d = (h.d + v.d) % 2 ^ 32;
      e = (h.e + v.e) % 2 ^ 32;
    }

-- The hash after a block, and after the `n` blocks of a padded message.
unfoldable pub IsCompressed : List ℕ → Hash → Hash → Type 0
IsCompressed block h h' = (w : ℕ → ℕ) × IsSchedule block w × (h' ≡ compressed w h)

unfoldable pub IsHashed : ℕ → List ℕ → Hash → Hash → Type 0
IsHashed zero bytes h h' = h' ≡ h
IsHashed (suc n) bytes h h' =
    (m : Hash) × IsCompressed (take 64 bytes) h m × IsHashed n (drop 64 bytes) m h'
