-- ===== src/Ws/Handshake/Replies.antt =====
-- src/server/ws/handshake.cpp, `ProcessHandshake`: the two responses as RFC 6455 (section 4.2.2) and
-- RFC 9110 (section 15.5.22) write them, and which of them a request gets.
use pong_pp.Common.{ℕ, ◌≡◌, refl, some, List, [], ◌∷◌, ◌++◌, codes, length, arith}
use pong_pp.Common.Decimal.{to_string}
use pong_pp.Base64.Decode.{decode}
use pong_pp.Sha1.{sha1}
use pong_pp.Ws.Handshake.{
  HandshakeResult, not_upgrade, done, not_upgrade_body, not_upgrade_response, tolower, is_blank,
  answer, process_handshake,
}
use pong_pp.Ws.Handshake.Request.{Field, request, IsRequest, lookup_field}
use pong_pp.Ws.Handshake.Process.{request_answered}
use pong_pp.Ws.Handshake.Accept.{answer-accept}

-- A status line and fields, each a line of its own, with those that make the connection a
-- WebSocket; and a value that is read as the digest of the key and the protocol's GUID.
abbrev pub IsSwitching : List ℕ → List ℕ → Type 0
IsSwitching key response =
    (fields : List Field) × (response
      ≡ request (codes "HTTP/1.1 101 Switching Protocols") fields [])
    × IsRequest (codes "HTTP/1.1 101 Switching Protocols") fields
    × (lookup_field (codes "Upgrade") fields ≡ codes "websocket")
    × (lookup_field (codes "Connection") fields ≡ codes "Upgrade")
    × (decode (lookup_field (codes "Sec-WebSocket-Accept") fields)
        ≡ some (sha1 (key ++ codes "258EAFA5-E914-47DA-95CA-C5AB0DC85B11")))

-- A status line, fields that name the protocol to use, and a body of the length that they state.
abbrev pub IsUpgradeRequired : List ℕ → Type 0
IsUpgradeRequired response =
    (fields : List Field) × (body : List ℕ) × (response
      ≡ request (codes "HTTP/1.1 426 Upgrade Required") fields body)
    × IsRequest (codes "HTTP/1.1 426 Upgrade Required") fields
    × (lookup_field (codes "Upgrade") fields ≡ codes "websocket")
    × (lookup_field (codes "Connection") fields ≡ codes "Upgrade")
    × (lookup_field (codes "Content-Length") fields ≡ to_string (length body))

-- What a request with this key gets; the empty one stands for none.
abbrev pub Reply : List ℕ → HandshakeResult → List ℕ → Type 0
Reply [] result response = (result ≡ not_upgrade) × IsUpgradeRequired response
Reply (k ∷ key) result response = (result ≡ done) × IsSwitching (k ∷ key) response

abbrev refusal_fields : List Field
refusal_fields =
    (codes "Upgrade", codes " websocket")
    ∷ (codes "Connection", codes " Upgrade")
    ∷ (codes "Content-Type", codes " text/plain; charset=utf-8")
    ∷ (codes "Content-Length", codes " 50")
    ∷ []

not_upgrade_response-IsUpgradeRequired : IsUpgradeRequired not_upgrade_response
unfolding not_upgrade_response to_string tolower is_blank
not_upgrade_response-IsUpgradeRequired =
    (refusal_fields, not_upgrade_body, refl, omega arith, refl, refl, refl)

pub answer-Reply : (key : List ℕ) → Reply key (answer key).0 (answer key).1
unfolding answer
answer-Reply [] = (refl, not_upgrade_response-IsUpgradeRequired)
answer-Reply (k ∷ key) =
    let (fields, text, lines, upgrade, connection, accept, long) = answer-accept k key in
    (refl, (fields, text, lines, upgrade, connection, accept))

-- A whole request, whose lines hold no CR and whose names no colon, is answered by the key that its
-- first Sec-WebSocket-Key field gives. With a key that is not empty the result is Done and the
-- response a status line of 101 with the fields that make the connection a WebSocket, among them the
-- value that a client reads as the SHA-1 digest of that key and the protocol's GUID; without one the
-- result is NotUpgrade and the response a status line of 426, fields that name the protocol, and a
-- body of the stated length. The request's bytes are taken from the buffer and those behind it stay.
pub process_handshake-Reply :
    (request_line : List ℕ) (fields : List Field) (rest out_response : List ℕ)
    → IsRequest request_line fields
    → let (result, left, response) =
        process_handshake (request request_line fields rest) out_response in
      (left ≡ rest) × Reply (lookup_field (codes "Sec-WebSocket-Key") fields) result response
process_handshake-Reply request_line fields rest out_response ok =
    rw (request_answered request_line fields rest out_response ok)
      (refl, answer-Reply (lookup_field (codes "Sec-WebSocket-Key") fields))
