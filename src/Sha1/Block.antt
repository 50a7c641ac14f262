-- ===== src/Sha1/Block.antt =====
-- `process_block`: the compression of one block of 64 bytes.
pub mod Words
pub mod Schedule
pub mod Rounds
use pong_pp.Common.{
  ℕ, zero, suc, ◌+◌, ◌-◌, ◌*◌, List, [], ◌∷◌, ◌++◌, get_or, bit_and, bit_or, bit_xor, ltb, u32,
  ◌<<<◌, ◌>>>◌, if◌then◌else◌,
}

-- h[0] to h[4]; also the variables a to e of the rounds.
pub record Hash : Type 0 where
  pub a : ℕ
  pub b : ℕ
  pub c : ℕ
  pub d : ℕ
  pub e : ℕ

pub leftrotate : ℕ → ℕ → ℕ
leftrotate x n = bit_or (u32 (x <<< n)) (x >>> (32 - n))

-- One big-endian word of the block.
pub load_word : List ℕ → ℕ → ℕ
load_word block i =
    bit_or
      (bit_or
        (bit_or (u32 (get_or block (i * 4) 0 <<< 24)) (u32 (get_or block (i * 4 + 1) 0 <<< 16)))
        (u32 (get_or block (i * 4 + 2) 0 <<< 8)))
      (get_or block (i * 4 + 3) 0)

-- for (i = 0; i < 16; ++i), with the rounds that are left.
pub load_words : ℕ → ℕ → List ℕ → List ℕ
unfolding load_word
load_words zero i block = []
load_words (suc n) i block = load_word block i ∷ load_words n (i + 1) block

-- for (i = 16; i < 80; ++i): `w` holds the words below `i`.
pub extend : ℕ → ℕ → List ℕ → List ℕ
unfolding leftrotate
extend zero i w = w
extend (suc n) i w =
    let x =
      bit_xor (bit_xor (bit_xor (get_or w (i - 3) 0) (get_or w (i - 8) 0)) (get_or w (i - 14) 0))
        (get_or w (i - 16) 0) in
    extend n (i + 1) (w ++ leftrotate x 1 ∷ [])

pub complement : ℕ → ℕ
complement x = bit_xor x 0xffffffff

-- f and k of round `i`.
pub mix : ℕ → Hash → ℕ
unfolding complement
mix i v =
    if ltb i 20
    then bit_or (bit_and v.b v.c) (bit_and (complement v.b) v.d)
    else if ltb i 40
    then bit_xor (bit_xor v.b v.c) v.d
    else if ltb i 60
    then bit_or (bit_or (bit_and v.b v.c) (bit_and v.b v.d)) (bit_and v.c v.d)
    else bit_xor (bit_xor v.b v.c) v.d

pub constant : ℕ → ℕ
constant i =
    if ltb i 20
    then 0x5a827999
    else if ltb i 40
    then 0x6ed9eba1
    else if ltb i 60
    then 0x8f1bbcdc
    else 0xca62c1d6

-- The body of the loop over the 80 words.
pub round : ℕ → ℕ → Hash → Hash
unfolding leftrotate mix constant
round i word v = record {
  a = u32 (leftrotate v.a 5 + mix i v + v.e + constant i + word);
  b = v.a;
  c = leftrotate v.b 30;
  d = v.c;
  e = v.d;
}

pub rounds : ℕ → List ℕ → Hash → Hash
unfolding round
rounds i [] v = v
rounds i (word ∷ w) v = rounds (i + 1) w (round i word v)

-- h[i] += ...
abbrev pub add_hash : Hash → Hash → Hash
add_hash h v = record {
  a = u32 (h.a + v.a);
  b = u32 (h.b + v.b);
  c = u32 (h.c + v.c);
  d = u32 (h.d + v.d);
  e = u32 (h.e + v.e);
}

unfoldable pub process_block : List ℕ → Hash → Hash
unfolding load_words extend rounds
process_block block h = add_hash h (rounds 0 (extend 64 16 (load_words 16 0 block)) h)
