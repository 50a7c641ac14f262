-- ===== src/Base64/Tests.antt =====
-- The test vectors of RFC 4648, and the round trip at one of them.
use pong_pp.Common.{◌≡◌, refl, some, codes, arith}
use pong_pp.Base64.{base64_encode, letter, triple}
use pong_pp.Base64.Decode.{decode}
use pong_pp.Base64.RoundTrip.{decode-base64_encode}

foob : base64_encode (codes "foob") ≡ codes "Zm9vYg=="
unfolding base64_encode letter triple
foob = refl

fooba : base64_encode (codes "fooba") ≡ codes "Zm9vYmE="
unfolding base64_encode letter triple
fooba = refl

foobar : base64_encode (codes "foobar") ≡ codes "Zm9vYmFy"
unfolding base64_encode letter triple
foobar = refl

decode-base64_encode_example : decode (base64_encode (codes "fooba")) ≡ some (codes "fooba")
decode-base64_encode_example = decode-base64_encode (codes "fooba") (omega arith)
