-- ===== src/Sha1/Padding/Buffer.antt =====
-- What `tail_buffer` holds: the end of the padded message.
use pong_pp.Common.{
  ℕ, suc, ◌+◌, ◌-◌, ◌*◌, ◌<◌, ◌≤◌, ◌≡◌, ◌∙◌, ap, List, ◌∷◌, ◌++◌, length, length-append,
  length-replicate, replicate, set, set-append_right, replicate-add, append_assoc, u64, arith,
}
use pong_pp.Sha1.{store_length, block_count, tail_buffer}
use pong_pp.Sha1.Rfc.{eight_bytes, zeros, pad_with}

pub eight_zeros : (n : ℕ) → 8 ≤ n → replicate {A = ℕ} n 0 ≡ replicate 8 0 ++ replicate (n - 8) 0
eight_zeros n h = ap (λ (k : ℕ). replicate {A = ℕ} k 0) e ∙ replicate-add 8 (n - 8) 0
  where
    e : n ≡ 8 + (n - 8)
    e = omega arith

pub store_length_lem :
    (front back : List ℕ) (size bits : ℕ)
    → size ≡ length front + 8
    → store_length 8 0 size bits (front ++ (replicate 8 0 ++ back))
      ≡ front ++ (eight_bytes bits ++ back)
unfolding store_length
store_length_lem front back size bits e =
    rw
      (
        set-append_right front _ (size - 1 - 0) 7 _ (omega arith),
        set-append_right front _ (size - 1 - 1) 6 _ (omega arith),
        set-append_right front _ (size - 1 - 2) 5 _ (omega arith),
        set-append_right front _ (size - 1 - 3) 4 _ (omega arith),
        set-append_right front _ (size - 1 - 4) 3 _ (omega arith),
        set-append_right front _ (size - 1 - 5) 2 _ (omega arith),
        set-append_right front _ (size - 1 - 6) 1 _ (omega arith),
        set-append_right front _ (size - 1 - 7) 0 _ (omega arith),
      )
      (ground arith)

-- The zeros behind 0x80: first those that RFC 3174 wants, then eight for the length, then the rest.
pub tail_zeros :
    (rem : ℕ)
    → rem < 64
    → replicate {A = ℕ} (128 - rem - 1) 0
      ≡ replicate (zeros rem) 0 ++ (replicate 8 0 ++ replicate (128 - block_count rem * 64) 0)
unfolding block_count
tail_zeros rem h =
    ap (λ (k : ℕ). replicate {A = ℕ} k 0) e
    ∙ (replicate-add (zeros rem) (8 + (128 - blocks * 64)) 0
        ∙ ap (◌++◌ (replicate (zeros rem) 0)) (replicate-add 8 (128 - blocks * 64) 0))
  where
    blocks : ℕ
    blocks = block_count rem

    e : 128 - rem - 1 ≡ zeros rem + (8 + (128 - block_count rem * 64))
    e = ground arith

-- The padded message fills its blocks.
pub length-pad_with :
    (bits : ℕ) (rest : List ℕ)
    → length (pad_with bits rest) ≡ length rest + 1 + zeros (length rest) + 8
length-pad_with bits rest = omega (
  arith,
  length-append (rest ++ (0x80 ∷ replicate (zeros (length rest)) 0)) (eight_bytes bits),
  length-append rest (0x80 ∷ replicate (zeros (length rest)) 0),
  length-replicate {0} {A = ℕ} (zeros (length rest)) 0,
)

pub full_block : (rem : ℕ) → rem < 64 → rem + 1 + zeros rem + 8 ≡ block_count rem * 64
unfolding block_count
full_block rem h = ground arith

pub marked :
    (rest : List ℕ)
    → length rest < 64
    → set (rest ++ replicate (128 - length rest) 0) (length rest) 0x80
      ≡ (rest ++ (0x80 ∷ replicate (zeros (length rest)) 0))
        ++ (replicate 8 0 ++ replicate (128 - block_count (length rest) * 64) 0)
marked rest h =
    rw
      (
        set-append_right rest (replicate (128 - length rest) 0) (length rest) 0 0x80 (omega arith),
        more,
        append_assoc,
      )
      (ap (λ (z : List ℕ). rest ++ 0x80 ∷ z) (tail_zeros (length rest) h))
  where
    more : 128 - length rest ≡ suc (128 - length rest - 1)
    more = omega arith

-- The buffer is the padded rest of the message, and zeros.
pub tail_buffer_lem :
    (rest : List ℕ) (size : ℕ)
    → length rest < 64
    → tail_buffer rest size
      ≡ pad_with (u64 (size * 8)) rest ++ replicate (128 - block_count (length rest) * 64) 0
unfolding tail_buffer
tail_buffer_lem rest size h =
    rw
      (
        marked rest h,
        store_length_lem (rest ++ (0x80 ∷ replicate (zeros (length rest)) 0))
            (replicate (128 - block_count (length rest) * 64) 0) (block_count (length rest) * 64)
            (u64 (size * 8)) fits,
      )
      (simp append_assoc)
  where
    fits :
        block_count (length rest) * 64
        ≡ length (rest ++ (0x80 ∷ replicate (zeros (length rest)) 0)) + 8
    fits = omega (
      arith,
      full_block (length rest) h,
      length-append rest (0x80 ∷ replicate (zeros (length rest)) 0),
      length-replicate {0} {A = ℕ} (zeros (length rest)) 0,
    )
