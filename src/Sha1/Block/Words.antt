-- ===== src/Sha1/Block/Words.antt =====
-- `leftrotate`, `~` and the loading of a word, as arithmetic.
use pong_pp.Common.{
  ℕ, zero, suc, ◌+◌, ◌-◌, ◌*◌, ◌/◌, ◌%◌, ◌^◌, ◌<◌, ◌≡◌, refl, ◌∙◌, ap, sym, List, [], ◌∷◌, get_or,
  AreBytes, bit_or, bit_xor, u32, ◌<<<◌, ◌>>>◌, arith,
}
use native.Mathlib.Nat.{mod-lt, div-le_self, pow-suc, one-le-pow}
use pong_pp.Common.Bits.{bit_or_shifted, bit_xor_sum, bit_or-lt}
use pong_pp.Sha1.Block.{leftrotate, load_word, complement}
use pong_pp.Sha1.Rfc.Block.{rotated, negated, block_word}

abbrev pub IsWord : ℕ → Type 0
IsWord x = x < 2 ^ 32

-- The two parts of a rotated word do not overlap.
leftrotate_parts :
    (x n q : ℕ) → u32 (x <<< n) ≡ q * 2 ^ n → x >>> (32 - n) < 2 ^ n → leftrotate x n ≡ rotated n x
unfolding leftrotate
leftrotate_parts x n q e small =
    ap (λ y. bit_or y (x >>> (32 - n))) e
    ∙ bit_or_shifted n q (x >>> (32 - n)) small
    ∙ ap (λ y. y + x / 2 ^ (32 - n)) (sym e)

pub leftrotate-one : (x : ℕ) → IsWord x → leftrotate x 1 ≡ rotated 1 x
leftrotate-one x h = leftrotate_parts x 1 (x % 2 ^ 31) (omega arith) (omega arith)

pub leftrotate-five : (x : ℕ) → IsWord x → leftrotate x 5 ≡ rotated 5 x
leftrotate-five x h = leftrotate_parts x 5 (x % 2 ^ 27) (omega arith) (omega arith)

pub leftrotate-thirty : (x : ℕ) → IsWord x → leftrotate x 30 ≡ rotated 30 x
leftrotate-thirty x h = leftrotate_parts x 30 (x % 2 ^ 2) (omega arith) (omega arith)

-- Every bit of the mask is set.
xor_mask : (k x : ℕ) → x < 2 ^ k → bit_xor x (2 ^ k - 1) ≡ 2 ^ k - 1 - x
xor_mask zero zero h = refl
xor_mask zero (suc x) h = absurd (omega arith)
xor_mask (suc k) x h =
    let half = pow-suc 2 k in
    let some_power = one-le-pow k 2 (omega arith) in
    let e : (2 ^ suc k - 1) / 2 ≡ 2 ^ k - 1 = omega (arith, half, some_power) in
    let ih = xor_mask k (x / 2) (omega (arith, half)) in
    rw (bit_xor_sum x (2 ^ suc k - 1), e, ih) (omega (arith, half, some_power))

pub complement_lem : (x : ℕ) → IsWord x → complement x ≡ negated x
unfolding complement
complement_lem x h = xor_mask 32 x h

pub get_or-AreBytes : (xs : List ℕ) (i : ℕ) → AreBytes xs → get_or xs i 0 < 256
get_or-AreBytes [] i h = omega arith
get_or-AreBytes (x ∷ xs) zero h = h.0
get_or-AreBytes (x ∷ xs) (suc i) h = get_or-AreBytes xs i h.1

four_bytes :
    (a b c d : ℕ)
    → a < 256
    → b < 256
    → c < 256
    → d < 256
    → bit_or (bit_or (bit_or (u32 (a <<< 24)) (u32 (b <<< 16))) (u32 (c <<< 8))) d
      ≡ a * 2 ^ 24 + b * 2 ^ 16 + c * 2 ^ 8 + d
four_bytes a b c d ha hb hc hd =
    let ea : u32 (a <<< 24) ≡ a * 2 ^ 24 = omega arith in
    let eb : u32 (b <<< 16) ≡ b * 2 ^ 16 = omega arith in
    let ec : u32 (c <<< 8) ≡ c * 2 ^ 8 = omega arith in
    let two : a * 2 ^ 24 + b * 2 ^ 16 ≡ (a * 2 ^ 8 + b) * 2 ^ 16 = omega arith in
    let three : (a * 2 ^ 8 + b) * 2 ^ 16 + c * 2 ^ 8 ≡ (a * 2 ^ 16 + b * 2 ^ 8 + c) * 2 ^ 8 =
      omega arith in
    rw
      (
        ea,
        eb,
        ec,
        bit_or_shifted 24 a (b * 2 ^ 16) (omega arith),
        two,
        bit_or_shifted 16 (a * 2 ^ 8 + b) (c * 2 ^ 8) (omega arith),
        three,
        bit_or_shifted 8 (a * 2 ^ 16 + b * 2 ^ 8 + c) d hd,
      )
      (omega arith)

pub load_word_lem :
    (block : List ℕ) (t : ℕ) → AreBytes block → load_word block t ≡ block_word block t
unfolding load_word block_word
load_word_lem block t h =
    four_bytes _ _ _ _ (get_or-AreBytes block (t * 4) h) (get_or-AreBytes block (t * 4 + 1) h)
      (get_or-AreBytes block (t * 4 + 2) h) (get_or-AreBytes block (t * 4 + 3) h)

-- The bounds of the words.
pub leftrotate-lt : (x n : ℕ) → IsWord x → IsWord (leftrotate x n)
unfolding leftrotate
leftrotate-lt x n h =
    bit_or-lt 32 (u32 (x <<< n)) (x >>> (32 - n)) (mod-lt (x <<< n) (omega arith))
      (shifted_lt (32 - n))
  where
    shifted_lt : (k : ℕ) → x / 2 ^ k < 2 ^ 32
    shifted_lt k = omega (arith, div-le_self x (2 ^ k))

pub load_word-lt : (block : List ℕ) (t : ℕ) → AreBytes block → IsWord (load_word block t)
unfolding block_word
load_word-lt block t h =
    let a = get_or-AreBytes block (t * 4) h in
    let b = get_or-AreBytes block (t * 4 + 1) h in
    let c = get_or-AreBytes block (t * 4 + 2) h in
    let d = get_or-AreBytes block (t * 4 + 3) h in rw (load_word_lem block t h) (omega arith)
