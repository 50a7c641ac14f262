-- ===== src/Ws/Handshake/Tests.antt =====
-- The handshake of RFC 6455, section 1.3, and the theorems at it.
use pong_pp.Common.{◌≡◌, refl, List, [], ◌∷◌, ◌++◌, some, length, codes, ℕ, arith, take, drop}
use pong_pp.Base64.{base64_encode}
use pong_pp.Sha1.{sha1, whole_blocks, tail_buffer, store_length, block_count, finish}
use pong_pp.Sha1.Block.{process_block}
use pong_pp.Ws.Handshake.{
  web_socket_guid, need_more, key_name, answer, tolower, is_blank, accept_value, process_handshake,
}
use pong_pp.Ws.Handshake.Request.{Field, request, IsRequest, lookup_field}
use pong_pp.Ws.Handshake.Accept.{status_line, answer-accept}
use pong_pp.Base64.Decode.{decode}
use pong_pp.Ws.Handshake.Process.{process_handshake-partial}
use pong_pp.Ws.Handshake.Replies.{Reply, process_handshake-Reply}

abbrev pub get_line : List ℕ
get_line = codes "GET /chat HTTP/1.1"

abbrev pub fields : List Field
fields =
    (codes "Host", codes " server.example.com")
    ∷ (codes "sec-websocket-KEY", codes "  dGhlIHNhbXBsZSBub25jZQ==")
    ∷ (codes "Upgrade", codes " websocket")
    ∷ []

pub get-IsRequest : IsRequest get_line fields
get-IsRequest = omega arith

pub key_found : lookup_field key_name fields ≡ codes "dGhlIHNhbXBsZSBub25jZQ=="
unfolding tolower is_blank
key_found = refl

accepted : accept_value (codes "dGhlIHNhbXBsZSBub25jZQ==") ≡ codes "s3pPLMBiTxaQ9kYGzzhZRbK+xOo="
unfolding accept_value base64_encode sha1 whole_blocks tail_buffer store_length block_count finish
    process_block
accepted = refl

process_handshake-Reply_example :
    let (result, left, response) = process_handshake (request get_line fields (codes "rest")) [] in
    (left ≡ codes "rest") × Reply (lookup_field (codes "Sec-WebSocket-Key") fields) result response
process_handshake-Reply_example =
    process_handshake-Reply get_line fields (codes "rest") [] get-IsRequest

answer-accept_example :
    (response : List Field) × ((answer (codes "dGhlIHNhbXBsZSBub25jZQ==")).1
      ≡ request status_line response [])
    × IsRequest status_line response
    × (lookup_field (codes "Upgrade") response ≡ codes "websocket")
    × (lookup_field (codes "Connection") response ≡ codes "Upgrade")
    × (decode (lookup_field (codes "Sec-WebSocket-Accept") response)
        ≡ some (sha1 (codes "dGhlIHNhbXBsZSBub25jZQ==" ++ web_socket_guid)))
    × (length (sha1 (codes "dGhlIHNhbXBsZSBub25jZQ==" ++ web_socket_guid)) ≡ 20)
answer-accept_example = answer-accept b'd' (codes "GhlIHNhbXBsZSBub25jZQ==")

process_handshake-partial_example :
    process_handshake (take 30 (request get_line fields [])) []
    ≡ (need_more, take 30 (request get_line fields []), [])
process_handshake-partial_example =
    process_handshake-partial get_line fields (take 30 (request get_line fields []))
      (drop 30 (request get_line fields [])) [] get-IsRequest refl (λ e. cc)
