-- ===== src/Sha1/Padding.antt =====
-- The tail buffer of `sha1` holds the padding of RFC 3174, and the loops go over its blocks.
mod Buffer
use pong_pp.Common.{
  ℕ, zero, suc, ◌+◌, ◌-◌, ◌*◌, ◌/◌, ◌%◌, ◌<◌, ◌≤◌, ◌≡◌, refl, ◌⊎◌, ◌∙◌, ap, List, ◌∷◌, ◌++◌, length,
  length-append, length-replicate, length-drop, take, drop, replicate, set, set-append_right,
  replicate-add, take-append, drop-append, append_assoc, leb, leb→le, if◌then◌else◌, u64, arith,
  inl, inr, Bool-cases,
}
use pong_pp.Sha1.{
  initial, whole_blocks, store_length, block_count, tail_buffer, output, finish, sha1,
}
use pong_pp.Sha1.Block.{Hash, process_block}
use pong_pp.Sha1.Rfc.{eight_bytes, zeros, pad_with, pad, fold_blocks}
use pong_pp.Sha1.Padding.Buffer.{
  eight_zeros, store_length_lem, tail_zeros, length-pad_with, full_block, marked, tail_buffer_lem,
}

one_or_two : (rem : ℕ) → (block_count rem ≡ 1) ⊎ (block_count rem ≡ 2)
unfolding block_count
one_or_two rem = ground arith

blocks_in_buffer :
    (n : ℕ) (padded back : List ℕ) (h : Hash)
    → (n ≡ 1) ⊎ (n ≡ 2)
    → length padded ≡ n * 64
    → (let first = process_block (take 64 (padded ++ back)) h in
        if leb n 1 then first else process_block (take 64 (drop 64 (padded ++ back))) first)
      ≡ fold_blocks n padded h
unfolding fold_blocks
blocks_in_buffer n padded back h (inl one) fits =
    rw (one, take-append 64 padded back (omega arith)) refl
blocks_in_buffer n padded back h (inr two) fits =
    rw
      (
        two,
        take-append 64 padded back (omega arith),
        drop-append 64 padded back (omega arith),
        take-append 64 (drop 64 padded) back (omega (arith, length-drop 64 padded)),
      )
      refl

-- The last blocks of the message.
finish_lem :
    (rest : List ℕ) (size : ℕ) (h : Hash)
    → length rest < 64
    → finish rest (tail_buffer rest size) h
      ≡ fold_blocks (block_count (length rest)) (pad_with (u64 (size * 8)) rest) h
unfolding finish
finish_lem rest size h short = rw (tail_buffer_lem rest size short) (
    blocks_in_buffer (block_count (length rest)) (pad_with (u64 (size * 8)) rest) _ h
      (one_or_two (length rest))
      (omega (arith, length-pad_with (u64 (size * 8)) rest, full_block (length rest) short)))

blocks_of_rest : (rem : ℕ) → rem < 64 → (rem + 72) / 64 ≡ block_count rem
unfolding block_count
blocks_of_rest rem h = ground arith

-- A whole block in front of the message is taken off first, and the padding stays.
fold_blocks-whole :
    (message : List ℕ) (bits : ℕ) (h : Hash)
    → 64 ≤ length message
    → fold_blocks ((length message + 72) / 64) (pad_with bits message) h
      ≡ fold_blocks
          ((length (drop 64 message) + 72) / 64)
          (pad_with bits (drop 64 message))
          (process_block (take 64 message) h)
unfolding fold_blocks
fold_blocks-whole message bits h long =
    rw
      (
        one_more,
        append_assoc message (padding (length message)) (eight_bytes bits),
        fold_blocks,
        take-append 64 message (padding (length message) ++ eight_bytes bits) long,
        drop-append 64 message (padding (length message) ++ eight_bytes bits) long,
        append_assoc (drop 64 message) (padding (length (drop 64 message))) (eight_bytes bits),
        same_zeros,
      )
      refl
  where
    padding : ℕ → List ℕ
    padding size = 0x80 ∷ replicate (zeros size) 0

    one_more : (length message + 72) / 64 ≡ suc ((length (drop 64 message) + 72) / 64)
    one_more = omega (arith, length-drop 64 message)

    same_zeros : zeros (length (drop 64 message)) ≡ zeros (length message)
    same_zeros = omega (arith, length-drop 64 message)

-- With a round for each byte the loop leaves less than a block.
whole_blocks_lem :
    (fuel : ℕ) (message : List ℕ) (size : ℕ) (h : Hash)
    → length message ≤ fuel
    → (let (rest, h') = whole_blocks fuel message h in finish rest (tail_buffer rest size) h')
      ≡ fold_blocks ((length message + 72) / 64) (pad_with (u64 (size * 8)) message) h
unfolding whole_blocks
whole_blocks_lem zero message size h enough =
    rw (blocks_of_rest (length message) (omega arith)) (finish_lem message size h (omega arith))
whole_blocks_lem (suc fuel) message size h enough = elim (Bool-cases (leb 64 (length message))) [
  | inl more ↦
      rw (more, fold_blocks-whole message (u64 (size * 8)) h (leb→le 64 (length message) more))
        (whole_blocks_lem fuel (drop 64 message) size (process_block (take 64 message) h)
          (omega (arith, length-drop 64 message, leb→le 64 (length message) more)))
  | inr last ↦
      let short : length message < 64 = ground arith in
      rw (last, blocks_of_rest (length message) short) (finish_lem message size h short)
]

-- The digest folds the block function over the padded message, whose length is a multiple of the
-- block's.
pub sha1_lem :
    (message : List ℕ)
    → (sha1 message ≡ output (fold_blocks (length (pad message) / 64) (pad message) initial))
      × (length (pad message) % 64 ≡ 0)
unfolding sha1
sha1_lem message = (
  ap output (whole_blocks_lem (length message) message (length message) initial (omega arith))
      ∙ ap (λ (n : ℕ). output (fold_blocks n (pad message) initial)) all_blocks,
  omega (arith, fits),
)
  where
    fits : length (pad message) ≡ length message + 1 + zeros (length message) + 8
    fits = length-pad_with (u64 (length message * 8)) message

    all_blocks : (length message + 72) / 64 ≡ length (pad message) / 64
    all_blocks = omega (arith, fits)
