-- ===== src/Sha1.antt =====
-- src/server/util/sha1.cpp: `leftrotate`, `process_block` and `sha1`. A `uint32_t` is a number
-- below 2 ^ 32, an array a list, and a string the list of its bytes.
pub mod Block
pub mod Rfc
pub mod Padding
pub mod Digest
mod Tests
use pong_pp.Common.{
  ℕ, zero, suc, ◌+◌, ◌-◌, ◌*◌, List, [], ◌∷◌, ◌++◌, length, take, drop, replicate, set, leb, u8,
  u64, ◌>>>◌, if◌then◌else◌,
}
use Block.{Hash, process_block}

-- uint32_t h[5] = {...}
abbrev pub initial : Hash
initial = record { a = 0x67452301; b = 0xefcdab89; c = 0x98badcfe; d = 0x10325476; e = 0xc3d2e1f0 }

-- while (pos + 64 <= data.size()): what is left of the data, and the hash so far. A round takes 64
-- bytes, so as many rounds as there are bytes are enough.
unfoldable pub whole_blocks : ℕ → List ℕ → Hash → List ℕ × Hash
whole_blocks zero rest h = (rest, h)
whole_blocks (suc fuel) rest h =
    let next = whole_blocks fuel (drop 64 rest) (process_block (take 64 rest) h) in
    if leb 64 (length rest) then next else (rest, h)

-- for (i = 0; i < 8; ++i) tail[final_size - 1 - i] = uint8_t(total_bits >> (i * 8))
unfoldable pub store_length : ℕ → ℕ → ℕ → ℕ → List ℕ → List ℕ
store_length zero i final_size total_bits tail = tail
store_length (suc n) i final_size total_bits tail =
    store_length n (i + 1) final_size total_bits
      (set tail (final_size - 1 - i) (u8 (total_bits >>> (i * 8))))

unfoldable pub block_count : ℕ → ℕ
block_count rem = if leb (rem + 1 + 8) 64 then 1 else 2

-- tail[128] with the last bytes of the data, 0x80, zeros and the length in bits.
unfoldable pub tail_buffer : List ℕ → ℕ → List ℕ
tail_buffer rest size =
    let rem = length rest in
    store_length 8 0 (block_count rem * 64) (u64 (size * 8))
      (set (rest ++ replicate (128 - rem) 0) rem 0x80)

abbrev pub big_endian : ℕ → List ℕ
big_endian w = u8 (w >>> 24) ∷ u8 (w >>> 16) ∷ u8 (w >>> 8) ∷ u8 w ∷ []

abbrev pub output : Hash → List ℕ
output h = big_endian h.a ++ big_endian h.b ++ big_endian h.c ++ big_endian h.d ++ big_endian h.e

-- The last one or two blocks.
unfoldable pub finish : List ℕ → List ℕ → Hash → Hash
finish rest tail h =
    let first = process_block (take 64 tail) h in
    if leb (block_count (length rest)) 1
    then first
    else process_block (take 64 (drop 64 tail)) first

unfoldable pub sha1 : List ℕ → List ℕ
sha1 message =
    let (rest, h) = whole_blocks (length message) message initial in
    output (finish rest (tail_buffer rest (length message)) h)
