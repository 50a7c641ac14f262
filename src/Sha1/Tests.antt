-- ===== src/Sha1/Tests.antt =====
-- Test vectors of RFC 3174, and `sha1-IsHashed` at one of them.
use pong_pp.Common.{◌/◌, ◌%◌, ◌≡◌, refl, [], ◌∷◌, codes, length, arith}
use pong_pp.Sha1.{
  initial, output, sha1, whole_blocks, tail_buffer, store_length, block_count, finish,
}
use pong_pp.Sha1.Block.{Hash, process_block}
use pong_pp.Sha1.Rfc.{pad}
use pong_pp.Sha1.Rfc.Block.{IsHashed}
use pong_pp.Sha1.Digest.{sha1-IsHashed}

sha1_abc :
    sha1 (codes "abc")
    ≡ 0xa9 ∷ 0x99 ∷ 0x3e ∷ 0x36 ∷ 0x47 ∷ 0x06 ∷ 0x81 ∷ 0x6a ∷ 0xba ∷ 0x3e ∷ 0x25 ∷ 0x71 ∷ 0x78
      ∷ 0x50 ∷ 0xc2 ∷ 0x6c ∷ 0x9c ∷ 0xd0 ∷ 0xd8 ∷ 0x9d ∷ []
unfolding sha1 whole_blocks tail_buffer store_length block_count finish process_block
sha1_abc = refl

sha1-IsHashed_example :
    (length (pad (codes "abc")) % 64 ≡ 0)
    × ((h : Hash) × IsHashed (length (pad (codes "abc")) / 64) (pad (codes "abc")) initial h
        × (sha1 (codes "abc") ≡ output h)
        × ((other : Hash)
            → IsHashed (length (pad (codes "abc")) / 64) (pad (codes "abc")) initial other
            → other ≡ h))
sha1-IsHashed_example = sha1-IsHashed (codes "abc") (omega arith)
