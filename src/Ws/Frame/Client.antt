-- ===== src/Ws/Frame/Client.antt =====
-- The other end of the connection, written from RFC 6455, section 5: the frames that a client sends
-- and how it reads those of a server. `ParseFrame` and `EncodeFrame` are measured against these.
use pong_pp.Common.{
  ℕ, ◌+◌, ◌-◌, ◌*◌, ◌/◌, ◌%◌, ◌^◌, Bool, true, false, ◌&&◌, Option, none, some, List, [], ◌∷◌, ◌++◌,
  length, take, drop, bit_xor, ltb, leb, ◌==◌, if◌then◌else◌,
}

-- Section 5.3: the key's four bytes in turn, each byte of the payload with the next of them.
unfoldable pub masked : ℕ → ℕ → ℕ → ℕ → List ℕ → List ℕ
masked a b c d [] = []
masked a b c d (x ∷ xs) = bit_xor x a ∷ masked b c d a xs

abbrev pub two_bytes : ℕ → List ℕ
two_bytes n = (n / 256 % 256) ∷ (n % 256) ∷ []

abbrev pub eight_bytes : ℕ → List ℕ
eight_bytes n =
    (n / 2 ^ 56 % 256)
    ∷ (n / 2 ^ 48 % 256)
    ∷ (n / 2 ^ 40 % 256)
    ∷ (n / 2 ^ 32 % 256)
    ∷ (n / 2 ^ 24 % 256)
    ∷ (n / 2 ^ 16 % 256)
    ∷ (n / 2 ^ 8 % 256)
    ∷ (n % 256)
    ∷ []

-- Section 5.2: the second byte, whose top bit says that the payload is masked, and the extended
-- length. `mark` is 128 or 0.
abbrev pub length_field : ℕ → ℕ → List ℕ
length_field mark n =
    if ltb n 126
    then (mark + n) ∷ []
    else if ltb n 65536
    then (mark + 126) ∷ two_bytes n
    else (mark + 127) ∷ eight_bytes n

abbrev pub fin_bit : Bool → ℕ
fin_bit true = 128
fin_bit false = 0

-- A frame as a client sends it, with the masking key `a b c d`.
abbrev pub client_frame : Bool → ℕ → ℕ → ℕ → ℕ → ℕ → List ℕ → List ℕ
client_frame fin code a b c d payload =
    (fin_bit fin + code) ∷ length_field 128 (length payload)
    ++ (a ∷ b ∷ c ∷ d ∷ masked a b c d payload)

-- A payload of `n` bytes: the opcode, the payload, and what comes behind it.
abbrev pub split_payload : ℕ → ℕ → List ℕ → Option (ℕ × List ℕ × List ℕ)
split_payload code n bytes =
    if leb n (length bytes) then some (code, take n bytes, drop n bytes) else none

-- The number that the bytes stand for, the highest first.
abbrev pub number : ℕ → List ℕ → ℕ
number acc [] = acc
number acc (x ∷ xs) = number (acc * 256 + x) xs

abbrev pub long_payload : ℕ → ℕ → List ℕ → Option (ℕ × List ℕ × List ℕ)
long_payload n code bytes = split_payload code (number 0 (take n bytes)) (drop n bytes)

-- How a client reads a whole, final and unmasked frame with no reserved bit.
unfoldable pub read_server_frame : List ℕ → Option (ℕ × List ℕ × List ℕ)
read_server_frame (b0 ∷ b1 ∷ bytes) =
    if leb 128 b0 && ltb b0 144
    then (if ltb b1 126
        then split_payload (b0 - 128) b1 bytes
        else if b1 == 126
        then long_payload 2 (b0 - 128) bytes
        else if b1 == 127
        then long_payload 8 (b0 - 128) bytes
        else none)
    else none
read_server_frame other = none
