-- ===== src/Ws/Frame/Encode.antt =====
-- A client reads what `encode_frame` makes.
use pong_pp.Common.{
  ℕ, ◌+◌, ◌-◌, ◌%◌, ◌^◌, ◌<◌, ◌≡◌, refl, le→leb, ltb→lt, some, List, ◌++◌, length, length-append,
  take-append_exact, drop-append_exact, arith, ltb, bit_and, bit_or, u8, Bool-cases, inl, inr,
}
use pong_pp.Common.Bits.{bit_and_low, bit_or_shifted}
use pong_pp.Ws.Frame.{Op, op_code, push_length, length_bytes, encode_frame}
use pong_pp.Ws.Frame.Client.{
  two_bytes, eight_bytes, length_field, split_payload, number, read_server_frame,
}

low_byte : (a : ℕ) → bit_and a 0xff ≡ a % 256
low_byte a = bit_and_low 8 a

-- The server's length field is that of the RFC.
length_bytes_lem : (n : ℕ) → length_bytes n ≡ length_field 0 n
unfolding length_bytes push_length
length_bytes_lem n = simp low_byte (ground arith)

eight_bytes-number : (n : ℕ) → n < 2 ^ 64 → number 0 (eight_bytes n) ≡ n
eight_bytes-number n h = omega arith

split_payload_lem :
    (code n : ℕ) (payload rest : List ℕ)
    → n ≡ length payload
    → split_payload code n (payload ++ rest) ≡ some (code, payload, rest)
split_payload_lem code n payload rest e =
    rw
      (
        e,
        le→leb (length payload) (length (payload ++ rest))
            (omega (arith, length-append payload rest)),
        take-append_exact payload rest,
        drop-append_exact payload rest,
      )
      refl

opcode_byte : (code : ℕ) → code < 16 → u8 (bit_or 0x80 code) ≡ 128 + code
opcode_byte code h = omega (arith, bit_or_shifted 7 1 code (omega arith))

-- Every frame that the server encodes, with an opcode of four bits and fewer than 2 ^ 64 bytes of
-- payload, is read by a client that
-- follows RFC 6455 as that opcode and that payload, and no byte of what follows is taken with it.
pub read_server_frame-encode_frame :
    (op : Op) (payload rest : List ℕ)
    → op_code op < 16
    → length payload < 2 ^ 64
    → read_server_frame (encode_frame op payload ++ rest) ≡ some (op_code op, payload, rest)
unfolding encode_frame read_server_frame
read_server_frame-encode_frame op payload rest h fits =
    rw (opcode_byte (op_code op) h, length_bytes_lem (length payload))
      (elim (Bool-cases (ltb (length payload) 126)) [
        | inl short ↦ rw short (
            ground (
              arith,
              split_payload_lem (128 + op_code op - 128) (0 + length payload) payload rest
                  (omega arith),
            ))
        | inr long ↦ elim (Bool-cases (ltb (length payload) 65536)) [
          | inl middle ↦
              rw (long, middle)
                (ground (
                  arith,
                  ltb→lt (length payload) 65536 middle,
                  split_payload_lem (128 + op_code op - 128) (number 0 (two_bytes (length payload)))
                      payload rest,
                ))
          | inr large ↦
              rw (long, large)
                (ground (
                  arith,
                  eight_bytes-number (length payload) fits,
                  split_payload_lem (128 + op_code op - 128)
                      (number 0 (eight_bytes (length payload))) payload rest,
                ))
        ]
      ])
