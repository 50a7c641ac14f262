-- ===== src/Ws/Frame/RoundTrip.antt =====
-- `parse_frame` reads what a client sends.
mod Parts
use pong_pp.Common.{
  ℕ, suc, ◌+◌, ◌*◌, ◌/◌, ◌%◌, ◌^◌, ◌≤◌, ◌<◌, ◌≡◌, refl, ◌∙◌, ap, sym, le→ltb, ltb→lt, Bool, true,
  false, not, some, List, [], ◌∷◌, ◌++◌, length, length-append, drop-drop, append_assoc, get_or,
  take, drop, take-append_exact, drop-append_exact, arith, ltb, ◌==◌, bit_and, bit_or, u64, ◌<<<◌,
  Bool-cases, inl, inr,
}
use pong_pp.Common.Bits.{bit_and_low, bit_or_shifted, bit_xor_twice}
use pong_pp.Common.Table.{for_all_below, agree_below}
use pong_pp.Ws.Frame.{
  Frame, got, to_op, length_loop, read_length, unmask, read_payload, parse_lengths, parse_frame,
  max_frame_payload,
}
use pong_pp.Ws.Frame.Client.{masked, eight_bytes, length_field, fin_bit, client_frame}
use pong_pp.Ws.Frame.RoundTrip.Parts.{
  top_bit, reserved_bits, next_byte, length_loop-eight_bytes, header_size, read_length-length_field,
  unmask-masked, unmask-masked_from_start, length-masked,
}

-- Behind a header of the right size stand the key, the masked payload and the rest.
read_payload-client :
    (header payload rest : List ℕ) (out : Frame) (a b c d size : ℕ)
    → length header ≡ size
    → length payload ≤ max_frame_payload
    → read_payload
        (header ++ (a ∷ b ∷ c ∷ d ∷ masked a b c d payload ++ rest))
        out
        (length payload, size)
      ≡ (
        got,
        rest,
        record {
          fin = not (
              bit_and (get_or (header ++ (a ∷ b ∷ c ∷ d ∷ masked a b c d payload ++ rest)) 0 0) 0x80
              == 0);
          opcode = to_op (
              bit_and
                (get_or (header ++ (a ∷ b ∷ c ∷ d ∷ masked a b c d payload ++ rest)) 0 0)
                0x0f);
          payload = payload;
        },
      )
unfolding read_payload
read_payload-client header payload rest out a b c d size e fits =
    rw
      (
        le→ltb max_frame_payload (length payload) fits,
        le→ltb (length buf) (size + 4 + length payload) all_there,
        at_end,
        at_key,
        at_payload,
        taken,
        unmask-masked_from_start a b c d payload,
      )
      refl
  where
    hidden : List ℕ
    hidden = masked a b c d payload

    behind : List ℕ
    behind = a ∷ b ∷ c ∷ d ∷ hidden ++ rest

    buf : List ℕ
    buf = header ++ behind

    same_length : length payload ≡ length hidden
    same_length = sym (length-masked a b c d payload)

    at_key : drop size buf ≡ behind
    at_key = rw (← e) (drop-append_exact header behind)

    at_payload : drop (size + 4) buf ≡ hidden ++ rest
    at_payload = drop-drop size 4 buf ∙ ap (drop 4) at_key

    at_end : drop (size + 4 + length payload) buf ≡ rest
    at_end =
        drop-drop (size + 4) (length payload) buf
        ∙ (rw (at_payload, same_length) (drop-append_exact hidden rest))

    taken : take (length payload) (hidden ++ rest) ≡ hidden
    taken = rw same_length (take-append_exact hidden rest)

    all_there : size + 4 + length payload ≤ length buf
    all_there = omega (arith, length-append header behind, length-append hidden rest, same_length)

first_byte :
    (fin : Bool) (code : ℕ)
    → code < 16
    → (bit_and (fin_bit fin + code) 0x70 ≡ 0)
      × (bit_and (fin_bit fin + code) 0x0f ≡ code)
      × (not (bit_and (fin_bit fin + code) 0x80 == 0) ≡ fin)
first_byte true code h = (
  omega (arith, reserved_bits (128 + code) (omega arith)),
  omega (arith, bit_and_low 4 (128 + code)),
  ground (arith, top_bit (128 + code)),
)
first_byte false code h = (
  omega (arith, reserved_bits (0 + code) (omega arith)),
  omega (arith, bit_and_low 4 (0 + code)),
  ground (arith, top_bit (0 + code)),
)

second_byte :
    (b0 n : ℕ) (rest : List ℕ) → bit_and (get_or (b0 ∷ length_field 128 n ++ rest) 1 0) 0x80 ≡ 128
second_byte b0 n rest = elim (Bool-cases (ltb n 126)) [
  | inl short ↦ rw short (omega (arith, top_bit (128 + n) (ground arith), ltb→lt n 126 short))
  | inr long ↦ elim (Bool-cases (ltb n 65536)) [
    | inl middle ↦ rw (long, middle) (omega (arith, top_bit 254 (omega arith)))
    | inr large ↦ rw (long, large) (omega (arith, top_bit 255 (omega arith)))
  ]
]

parse_frame_reads :
    (buf : List ℕ) (out : Frame) (lengths : ℕ × ℕ)
    → 2 ≤ length buf
    → bit_and (get_or buf 0 0) 0x70 ≡ 0
    → bit_and (get_or buf 1 0) 0x80 ≡ 128
    → read_length buf ≡ some lengths
    → parse_frame buf out ≡ read_payload buf out lengths
unfolding parse_frame parse_lengths
parse_frame_reads buf out lengths two reserved mask found = ground arith

-- Every frame that RFC 6455 lets a client send, with at most 2 ^ 20 bytes of payload, is read back:
-- its opcode, its final bit and its payload, unmasked; the bytes behind it stay in the buffer.
pub parse_frame-client_frame :
    (fin : Bool) (code a b c d : ℕ) (payload rest : List ℕ) (out : Frame)
    → code < 16
    → length payload ≤ max_frame_payload
    → parse_frame (client_frame fin code a b c d payload ++ rest) out
      ≡ (got, rest, record { fin = fin; opcode = to_op code; payload = payload })
parse_frame-client_frame fin code a b c d payload rest out h fits =
    rw (append_assoc header (a ∷ b ∷ c ∷ d ∷ masked a b c d payload) rest) (
      parse_frame_reads buf out (length payload, header_size (length payload)) two bits.0
        (second_byte (fin_bit fin + code) (length payload) behind)
        (read_length-length_field (fin_bit fin + code) (length payload) behind (omega arith))
      ∙ read_payload-client header payload rest out a b c d (header_size (length payload))
          (omega arith) fits
      ∙ rw (bits.1, bits.2))
  where
    header : List ℕ
    header = (fin_bit fin + code) ∷ length_field 128 (length payload)

    behind : List ℕ
    behind = a ∷ b ∷ c ∷ d ∷ masked a b c d payload ++ rest

    buf : List ℕ
    buf = header ++ behind

    bits :
        (bit_and (fin_bit fin + code) 0x70 ≡ 0)
        × (bit_and (fin_bit fin + code) 0x0f ≡ code)
        × (not (bit_and (fin_bit fin + code) 0x80 == 0) ≡ fin)
    bits = first_byte fin code h

    two : 2 ≤ length buf
    two = omega (arith, length-append header behind)
