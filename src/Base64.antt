-- ===== src/Base64.antt =====
-- src/server/util/base64.cpp: `base64_encode`. A string is the list of its bytes; the index `i`
-- is the part of the list that is still to be read.
pub mod Decode
pub mod RoundTrip
pub mod Printable
mod Tests
use pong_pp.Common.{ℕ, List, [], ◌∷◌, codes, get_or, bit_and, bit_or, u32, ◌<<<◌, ◌>>>◌}

abbrev pub alphabet : List ℕ
alphabet = codes "ABCDEFGHIJKLMNOPQRSTUVWXYZabcdefghijklmnopqrstuvwxyz0123456789+/"

-- kAlphabet[(v >> shift) & 0x3F]
pub letter : ℕ → ℕ → ℕ
letter v shift = get_or alphabet (bit_and (v >>> shift) 0x3f) 0

-- The 32-bit word of three bytes.
pub triple : ℕ → ℕ → ℕ → ℕ
triple a b c = bit_or (bit_or (u32 (a <<< 16)) (u32 (b <<< 8))) c

-- The loop takes three bytes a round; what it leaves, none, one or two bytes, is padded with '='.
unfoldable pub base64_encode : List ℕ → List ℕ
unfolding letter triple
base64_encode [] = []
base64_encode (a ∷ []) = let v = u32 (a <<< 16) in letter v 18 ∷ letter v 12 ∷ b'=' ∷ b'=' ∷ []
base64_encode (a ∷ b ∷ []) =
    let v = bit_or (u32 (a <<< 16)) (u32 (b <<< 8)) in
    letter v 18 ∷ letter v 12 ∷ letter v 6 ∷ b'=' ∷ []
base64_encode (a ∷ b ∷ c ∷ rest) =
    let v = triple a b c in letter v 18 ∷ letter v 12 ∷ letter v 6 ∷ letter v 0 ∷ base64_encode rest
