-- ===== src/Ws/Handshake/Accept.antt =====
-- src/server/ws/handshake.cpp: the 101 response, and what a client finds in it.
use pong_pp.Common.{
  ℕ, ◌≡◌, refl, ◌∙◌, ap, some, List, [], ◌∷◌, ◌++◌, codes, length, AreBytes, arith,
}
use pong_pp.Common.Find.{Without}
use pong_pp.Base64.Decode.{decode}
use pong_pp.Base64.RoundTrip.{decode-base64_encode}
use pong_pp.Base64.Printable.{IsPrintable, base64_encode-IsPrintable}
use pong_pp.Sha1.{sha1, output}
use pong_pp.Sha1.Block.{Hash}
use pong_pp.Ws.Handshake.{
  answer, switching_response, accept_value, web_socket_guid, tolower, is_blank,
}
use pong_pp.Ws.Handshake.Request.{Field, request, IsRequest, lookup_field, strip}

output-AreBytes : (h : Hash) → AreBytes (output h)
output-AreBytes h = omega arith

sha1-AreBytes : (message : List ℕ) → AreBytes (sha1 message)
unfolding sha1
sha1-AreBytes message = output-AreBytes _

length-sha1 : (message : List ℕ) → length (sha1 message) ≡ 20
unfolding sha1
length-sha1 message = refl

abbrev pub status_line : List ℕ
status_line = codes "HTTP/1.1 101 Switching Protocols"

abbrev pub response_fields : List ℕ → List Field
response_fields accept =
    (codes "Upgrade", codes " websocket")
    ∷ (codes "Connection", codes " Upgrade")
    ∷ (codes "Sec-WebSocket-Accept", b' ' ∷ accept)
    ∷ []

printed : (accept : List ℕ) → IsPrintable accept → Without b'\r' accept
printed [] h = tt
printed (c ∷ accept) h = ((λ e. absurd (omega (arith, h.0))), printed accept h.1)

stripped : (accept : List ℕ) → IsPrintable accept → strip (b' ' ∷ accept) ≡ accept
unfolding is_blank
stripped [] h = refl
stripped (c ∷ accept) h = ground (arith, h.0)

switching_response_lem :
    (accept : List ℕ) → switching_response accept ≡ request status_line (response_fields accept) []
unfolding switching_response
switching_response_lem accept = refl

response-IsRequest :
    (accept : List ℕ) → IsPrintable accept → IsRequest status_line (response_fields accept)
response-IsRequest accept h = (
  omega arith,
  (omega arith, (omega arith, ((omega arith, omega arith, (omega arith, printed accept h)), tt))),
)

-- The response to a key that is not empty is a status line and fields, each a line of its own,
-- with those that make the connection a WebSocket; and the value of Sec-WebSocket-Accept that a
-- client finds among them is read, by the decoder of RFC 4648, as the SHA-1 digest of the key and
-- the protocol's GUID, of 20 bytes.
pub answer-accept :
    (k : ℕ) (key : List ℕ)
    → (fields : List Field) × ((answer (k ∷ key)).1 ≡ request status_line fields [])
      × IsRequest status_line fields
      × (lookup_field (codes "Upgrade") fields ≡ codes "websocket")
      × (lookup_field (codes "Connection") fields ≡ codes "Upgrade")
      × (decode (lookup_field (codes "Sec-WebSocket-Accept") fields)
          ≡ some (sha1 ((k ∷ key) ++ web_socket_guid)))
      × (length (sha1 ((k ∷ key) ++ web_socket_guid)) ≡ 20)
unfolding answer accept_value tolower is_blank
answer-accept k key =
    let accept = accept_value (k ∷ key) in
    (
      response_fields accept,
      switching_response_lem accept,
      response-IsRequest accept (printable (k ∷ key)),
      refl,
      refl,
      ap decode (stripped accept (printable (k ∷ key))) ∙ decode-base64_encode _ (sha1-AreBytes _),
      length-sha1 ((k ∷ key) ++ web_socket_guid),
    )
  where
    printable : (key : List ℕ) → IsPrintable (accept_value key)
    printable key = base64_encode-IsPrintable (sha1 (key ++ web_socket_guid))
