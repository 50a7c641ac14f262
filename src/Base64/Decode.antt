-- ===== src/Base64/Decode.antt =====
-- A decoder for RFC 4648 base64, written from the RFC: what `base64_encode` is measured against.
use pong_pp.Common.{
  ℕ, ◌+◌, ◌-◌, ◌*◌, ◌/◌, ◌%◌, Bool, ◌&&◌, Option, none, some, ◌>>=◌, List, [], ◌∷◌, ◌++◌, leb, ◌==◌,
  if◌then◌else◌,
}

abbrev in_range : ℕ → ℕ → ℕ → Bool
in_range lo hi c = leb lo c && leb c hi

-- The value of a letter of the alphabet.
unfoldable pub letter_value : ℕ → Option ℕ
letter_value c =
    if in_range b'A' b'Z' c
    then some (c - 65)
    else if in_range b'a' b'z' c
    then some (c - 71)
    else if in_range b'0' b'9' c
    then some (c + 4)
    else if c == b'+'
    then some 62
    else if c == b'/'
    then some 63
    else none

-- The bytes of a group of four characters.
unfoldable pub group_bytes : ℕ → ℕ → ℕ → ℕ → Option (List ℕ)
group_bytes w x y z =
    if y == b'=' && z == b'='
    then (do p ← letter_value w; q ← letter_value x; some ((p * 4 + q / 16) ∷ []))
    else if z == b'='
    then (do
      p ← letter_value w
      q ← letter_value x
      r ← letter_value y
      some ((p * 4 + q / 16) ∷ (q % 16 * 16 + r / 4) ∷ []))
    else (do
      p ← letter_value w
      q ← letter_value x
      r ← letter_value y
      s ← letter_value z
      some ((p * 4 + q / 16) ∷ (q % 16 * 16 + r / 4) ∷ (r % 4 * 64 + s) ∷ []))

unfoldable pub decode : List ℕ → Option (List ℕ)
decode [] = some []
decode (w ∷ x ∷ y ∷ z ∷ rest) = do
  bytes ← group_bytes w x y z
  more ← decode rest
  some (bytes ++ more)
decode other = none
