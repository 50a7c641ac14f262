-- ===== src/Ws/Frame/Tests.antt =====
-- Runs of the frame functions, and the theorems at concrete frames.
use pong_pp.Common.{
  ◌≡◌, ◌≢◌, ◌+◌, ◌≤◌, refl, true, List, [], ◌∷◌, ◌++◌, codes, ℕ, some, arith, length, drop,
}
use pong_pp.Ws.Frame.{
  Frame, text, ping, continuation, got, to_op, op_code, parse_frame, parse_lengths, read_payload,
  read_length, unmask, encode_frame, length_bytes, max_frame_payload,
}
use pong_pp.Ws.Frame.Client.{client_frame, read_server_frame}
use pong_pp.Ws.Frame.Stream.{parse_frame_untouched, parse_frame-append, parse_frame-got}
use pong_pp.Ws.Frame.RoundTrip.{parse_frame-client_frame}
use pong_pp.Ws.Frame.Encode.{read_server_frame-encode_frame}

abbrev blank : Frame
blank = record { fin = true; opcode = continuation; payload = [] }

-- "Hello", masked, from RFC 6455, section 5.7.
abbrev hello : List ℕ
hello = 0x81 ∷ 0x85 ∷ 0x37 ∷ 0xfa ∷ 0x21 ∷ 0x3d ∷ 0x7f ∷ 0x9f ∷ 0x4d ∷ 0x51 ∷ 0x58 ∷ []

parse_hello :
    parse_frame hello blank
    ≡ (got, [], record { fin = true; opcode = text; payload = codes "Hello" })
unfolding parse_frame parse_lengths read_payload read_length unmask to_op
parse_hello = refl

encode_hello : encode_frame text (codes "Hello") ≡ 0x81 ∷ 0x05 ∷ codes "Hello"
unfolding encode_frame length_bytes op_code
encode_hello = refl

hello_got : (parse_frame hello blank).0 ≡ got
unfolding parse_frame parse_lengths read_payload read_length unmask to_op
hello_got = refl

parse_frame-append_example : parse_frame (hello ++ hello) blank ≡ (
  (parse_frame hello blank).0,
  (parse_frame hello blank).1 ++ hello,
  (parse_frame hello blank).2,
)
parse_frame-append_example = parse_frame-append hello hello blank (ground (arith, hello_got))

part_not_got : (parse_frame (0x81 ∷ 0x85 ∷ []) blank).0 ≢ got
unfolding parse_frame parse_lengths read_payload read_length
part_not_got = λ e. cc

parse_frame_untouched_example :
    ((parse_frame (0x81 ∷ 0x85 ∷ []) blank).1 ≡ 0x81 ∷ 0x85 ∷ [])
    × ((parse_frame (0x81 ∷ 0x85 ∷ []) blank).2 ≡ blank)
parse_frame_untouched_example = parse_frame_untouched (0x81 ∷ 0x85 ∷ []) blank part_not_got

parse_frame-got_example :
    (total : ℕ) × ((parse_frame hello blank).1 ≡ drop total hello)
    × (total ≤ length hello)
    × (length (parse_frame hello blank).2.payload + 6 ≤ total)
    × (length (parse_frame hello blank).2.payload ≤ max_frame_payload)
parse_frame-got_example = parse_frame-got hello blank hello_got

parse_frame-client_frame_example :
    parse_frame (client_frame true 9 1 2 3 4 (codes "ab") ++ hello) blank
    ≡ (got, hello, record { fin = true; opcode = to_op 9; payload = codes "ab" })
parse_frame-client_frame_example =
    parse_frame-client_frame true 9 1 2 3 4 (codes "ab") hello blank (omega arith) (omega arith)

ping_code : op_code ping ≡ 9
unfolding op_code
ping_code = refl

read_server_frame-encode_frame_example :
    read_server_frame (encode_frame ping (codes "ab") ++ hello)
    ≡ some (op_code ping, codes "ab", hello)
read_server_frame-encode_frame_example =
    read_server_frame-encode_frame ping (codes "ab") hello (omega (arith, ping_code)) (omega arith)
