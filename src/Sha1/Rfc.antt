-- ===== src/Sha1/Rfc.antt =====
-- RFC 3174, section 4: the padded message. `fold_blocks` is the loop of `sha1` over such a message.
pub mod Block
use pong_pp.Common.{
  ℕ, zero, suc, ◌+◌, ◌-◌, ◌*◌, ◌/◌, ◌%◌, ◌^◌, List, [], ◌∷◌, ◌++◌, length, take, drop, replicate,
  u64,
}
use pong_pp.Sha1.Block.{Hash, process_block}

-- A number as eight bytes, the highest first.
abbrev pub eight_bytes : ℕ → List ℕ
eight_bytes n =
    (n / 2 ^ 56 % 256)
    ∷ (n / 2 ^ 48 % 256)
    ∷ (n / 2 ^ 40 % 256)
    ∷ (n / 2 ^ 32 % 256)
    ∷ (n / 2 ^ 24 % 256)
    ∷ (n / 2 ^ 16 % 256)
    ∷ (n / 2 ^ 8 % 256)
    ∷ (n % 256)
    ∷ []

-- The fewest zeros that bring the message, 0x80 and the eight bytes of the length to a multiple of
-- 64.
abbrev pub zeros : ℕ → ℕ
zeros size = (64 - (size + 9) % 64) % 64

abbrev pub pad_with : ℕ → List ℕ → List ℕ
pad_with bits message = message ++ (0x80 ∷ replicate (zeros (length message)) 0) ++ eight_bytes bits

abbrev pub pad : List ℕ → List ℕ
pad message = pad_with (u64 (length message * 8)) message

-- The blocks of 64 bytes, one after the other.
unfoldable pub fold_blocks : ℕ → List ℕ → Hash → Hash
fold_blocks zero bytes h = h
fold_blocks (suc n) bytes h = fold_blocks n (drop 64 bytes) (process_block (take 64 bytes) h)
