-- ===== src/Ws/Frame.antt =====
-- src/server/ws/frame.h and frame.cpp: `ParseFrame` and `EncodeFrame`. A string is the list of its
-- bytes. A function that changes its reference arguments takes them and returns the new ones.
pub mod Stream
pub mod Client
pub mod RoundTrip
pub mod Encode
mod Tests
use pong_pp.Common.{
  ℕ, zero, suc, ◌+◌, ◌-◌, ◌*◌, ◌%◌, ◌^◌, Bool, true, false, not, Option, none, some, List, [], ◌∷◌,
  ◌++◌, length, get_or, take, drop, bit_and, bit_or, bit_xor, ltb, ◌==◌, u8, u64, ◌<<<◌, ◌>>>◌,
  if◌then◌else◌,
}

-- `unnamed` are the values of the enumeration's type that have no name.
pub data Op : Type 0 where
  continuation text binary close ping pong : Op
  unnamed : ℕ → Op

-- static_cast<Op>(opcode)
pub to_op : ℕ → Op
to_op n =
    if n == 0
    then continuation
    else if n == 1
    then text
    else if n == 2
    then binary
    else if n == 8
    then close
    else if n == 9
    then ping
    else if n == 10
    then pong
    else unnamed n

-- static_cast<uint8_t>(opcode)
pub op_code : Op → ℕ
op_code continuation = 0
op_code text = 1
op_code binary = 2
op_code close = 8
op_code ping = 9
op_code pong = 10
op_code (unnamed n) = n

pub record Frame : Type 0 where
  pub fin : Bool
  pub opcode : Op
  pub payload : List ℕ

pub data ParseResult : Type 0 where
  need_more bad got : ParseResult

abbrev pub max_frame_payload : ℕ
max_frame_payload = 2 ^ 20

-- for (i = 0; i < 8; ++i) payload_len = (payload_len << 8) | p[2 + i]
pub length_loop : ℕ → ℕ → List ℕ → ℕ → ℕ
length_loop zero i buf payload_len = payload_len
length_loop (suc n) i buf payload_len =
    length_loop n (i + 1) buf (bit_or (u64 (payload_len <<< 8)) (get_or buf (2 + i) 0))

-- The payload's length and the header's; `none` if bytes of the length are missing.
unfoldable pub read_length : List ℕ → Option (ℕ × ℕ)
read_length buf =
    let payload_len = bit_and (get_or buf 1 0) 0x7f in
    if payload_len == 126
    then (if ltb (length buf) 4
        then none
        else some (bit_or (u64 (get_or buf 2 0 <<< 8)) (get_or buf 3 0), 4))
    else if payload_len == 127
    then (if ltb (length buf) 10 then none else some (length_loop 8 0 buf 0, 10))
    else some (payload_len, 2)

-- out.payload[i] = payload_src[i] ^ mask_key[i % 4], from index `i` on.
pub unmask : List ℕ → ℕ → List ℕ → List ℕ
unmask mask_key i [] = []
unmask mask_key i (x ∷ src) = bit_xor x (get_or mask_key (i % 4) 0) ∷ unmask mask_key (i + 1) src

-- What follows once the lengths are known.
unfoldable pub read_payload : List ℕ → Frame → ℕ × ℕ → ParseResult × List ℕ × Frame
read_payload buf out (payload_len, header_len) =
    let total = header_len + 4 + payload_len in
    if ltb max_frame_payload payload_len
    then (bad, buf, out)
    else if ltb (length buf) total
    then (need_more, buf, out)
    else (
      got,
      drop total buf,
      record {
        fin = not (bit_and (get_or buf 0 0) 0x80 == 0);
        opcode = to_op (bit_and (get_or buf 0 0) 0x0f);
        payload =
            unmask (take 4 (drop header_len buf)) 0 (take payload_len (drop (header_len + 4) buf));
      },
    )

unfoldable pub parse_lengths : List ℕ → Frame → Option (ℕ × ℕ) → ParseResult × List ℕ × Frame
parse_lengths buf out none = (need_more, buf, out)
parse_lengths buf out (some lengths) = read_payload buf out lengths

-- The result, and what becomes of `buf` and `out`.
unfoldable pub parse_frame : List ℕ → Frame → ParseResult × List ℕ × Frame
parse_frame buf out =
    if ltb (length buf) 2
    then (need_more, buf, out)
    else if not (bit_and (get_or buf 0 0) 0x70 == 0)
    then (bad, buf, out)
    else if bit_and (get_or buf 1 0) 0x80 == 0
    then (bad, buf, out)
    else parse_lengths buf out (read_length buf)

-- for (i = 7; i >= 0; --i) frame.push_back((len >> (i * 8)) & 0xFF), with `n` rounds left.
pub push_length : ℕ → ℕ → List ℕ
push_length zero len = []
push_length (suc n) len = bit_and (len >>> (n * 8)) 0xff ∷ push_length n len

-- The length of the payload as the server writes it.
pub length_bytes : ℕ → List ℕ
length_bytes len =
    if ltb len 126
    then u8 len ∷ []
    else if ltb len 65536
    then 126 ∷ bit_and (len >>> 8) 0xff ∷ bit_and len 0xff ∷ []
    else 127 ∷ push_length 8 len

pub encode_frame : Op → List ℕ → List ℕ
encode_frame opcode payload =
    u8 (bit_or 0x80 (op_code opcode)) ∷ length_bytes (length payload) ++ payload
