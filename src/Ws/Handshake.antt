-- ===== src/Ws/Handshake.antt =====
-- src/server/ws/handshake.h and handshake.cpp: `FindHeader` and `ProcessHandshake`.
pub mod Request
pub mod Lookup
pub mod Process
pub mod Accept
pub mod Replies
pub mod Tests
use pong_pp.Common.{
  ℕ, zero, suc, ◌+◌, ◌-◌, Bool, true, false, ◌&&◌, ◌||◌, Option, none, some, List, [], ◌∷◌, ◌++◌,
  codes, length, get_or, take, drop, ltb, leb, ◌==◌, if◌then◌else◌,
}
use pong_pp.Common.Find.{find}
use pong_pp.Common.Decimal.{to_string}
use pong_pp.Base64.{base64_encode}
use pong_pp.Sha1.{sha1}

pub data HandshakeResult : Type 0 where
  need_more bad not_upgrade done : HandshakeResult

abbrev pub web_socket_guid : List ℕ
web_socket_guid = codes "258EAFA5-E914-47DA-95CA-C5AB0DC85B11"

abbrev pub not_upgrade_body : List ℕ
not_upgrade_body = codes "This endpoint accepts WebSocket connections only.\n"

abbrev pub crlf : List ℕ
crlf = codes "\r\n"

-- std::tolower, in the "C" locale.
unfoldable pub tolower : ℕ → ℕ
tolower c = if leb b'A' c && leb c b'Z' then c + 32 else c

-- The loop over `k`: the bytes from the line's start on against those of the name.
pub matches_name : List ℕ → List ℕ → Bool
matches_name line [] = true
matches_name [] (b ∷ name) = false
matches_name (a ∷ line) (b ∷ name) = tolower a == tolower b && matches_name line name

unfoldable pub is_blank : ℕ → Bool
is_blank c = c == b' ' || c == b'\t'

-- while (v < line_end && (buf[v] == ' ' || buf[v] == '\t')) ++v, with `line_end - v` rounds left.
pub skip_blank : ℕ → List ℕ → ℕ → ℕ
skip_blank zero buf v = v
skip_blank (suc n) buf v =
    let next = skip_blank n buf (v + 1) in if is_blank (get_or buf v 0) then next else v

-- The value, if the line from `i` to `line_end` is the header that is looked for.
pub line_value : List ℕ → List ℕ → ℕ → ℕ → Option ℕ → Option (List ℕ)
line_value buf name i line_end none = none
line_value buf name i line_end (some colon) =
    if ltb line_end colon
    then none
    else if colon - i == length name && matches_name (drop i buf) name
    then (let v = skip_blank (line_end - (colon + 1)) buf (colon + 1) in
        some (take (line_end - v) (drop v buf)))
    else none

-- The loop over the lines. A line takes two bytes or more, so as many rounds as there are bytes are
-- enough.
pub scan_lines : ℕ → List ℕ → List ℕ → ℕ → List ℕ
scan_lines zero buf name i = []
scan_lines (suc fuel) buf name i =
    if ltb i (length buf)
    then elim (find crlf buf i) [
      | none ↦ []
      | some line_end ↦
          let rest = scan_lines fuel buf name (line_end + 2) in
          if line_end == i
          then []
          else elim (line_value buf name i line_end (find (codes ":") buf i)) [
            | some value ↦ value
            | none ↦ rest
          ]
    ]
    else []

pub find_header : List ℕ → List ℕ → List ℕ
find_header buf name = elim (find crlf buf 0) [
  | none ↦ []
  | some i ↦ scan_lines (length buf) buf name (i + 2)
]

pub not_upgrade_response : List ℕ
not_upgrade_response =
    codes "HTTP/1.1 426 Upgrade Required\r\n"
    ++ codes "Upgrade: websocket\r\n"
    ++ codes "Connection: Upgrade\r\n"
    ++ codes "Content-Type: text/plain; charset=utf-8\r\n"
    ++ codes "Content-Length: "
    ++ to_string (length not_upgrade_body)
    ++ codes "\r\n\r\n"
    ++ not_upgrade_body

-- Sec-WebSocket-Accept
pub accept_value : List ℕ → List ℕ
accept_value key = base64_encode (sha1 (key ++ web_socket_guid))

pub switching_response : List ℕ → List ℕ
switching_response accept =
    codes "HTTP/1.1 101 Switching Protocols\r\n"
    ++ codes "Upgrade: websocket\r\n"
    ++ codes "Connection: Upgrade\r\n"
    ++ codes "Sec-WebSocket-Accept: "
    ++ accept
    ++ codes "\r\n\r\n"

abbrev pub key_name : List ℕ
key_name = codes "Sec-WebSocket-Key"

-- What is answered to a complete request with this key.
unfoldable pub answer : List ℕ → HandshakeResult × List ℕ
answer [] = (not_upgrade, not_upgrade_response)
answer (k ∷ key) = (done, switching_response (accept_value (k ∷ key)))

-- The result, and what becomes of `buf` and `out_response`.
pub process_handshake : List ℕ → List ℕ → HandshakeResult × List ℕ × List ℕ
process_handshake buf out_response = elim (find (codes "\r\n\r\n") buf 0) [
  | none ↦ (need_more, buf, out_response)
  | some end ↦
      let (result, response) = answer (find_header buf key_name) in
      (result, drop (end + 4) buf, response)
]
