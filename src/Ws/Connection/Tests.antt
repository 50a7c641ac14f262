-- ===== src/Ws/Connection/Tests.antt =====
-- A connection that writes to a log and hands its messages on to it, and the theorems at it.
use pong_pp.Common.{◌≡◌, refl, true, some, List, [], ◌∷◌, ◌++◌, codes, ℕ, arith, take, drop}
use pong_pp.Ws.Frame.{parse_frame, parse_lengths, read_payload, read_length}
use pong_pp.Ws.Frame.Client.{client_frame, masked}
use pong_pp.Ws.Handshake.Request.{request}
use pong_pp.Ws.Handshake.Tests.{get_line, fields, get-IsRequest, key_found}
use pong_pp.Ws.Handshake.Replies.{IsSwitching, IsUpgradeRequired}
use pong_pp.Ws.Connection.{
  handshake, open_state, ReadResult, ok, err, Peer, Connection, handle_frames, deliver, read,
  by_state, after_parse, after_frames,
}
use pong_pp.Ws.Connection.Write.{wrote, interrupted, failed, write_all, write_all_whole}
use pong_pp.Ws.Connection.Stream.{reads, reads-stream}
use pong_pp.Ws.Connection.Read.{read-Returns, read-append, read-upgrade, read-not_upgrade, stream}

data Event : Type 0 where
  written message : List ℕ → Event

abbrev log_peer : Peer (List Event)
log_peer = record {
  write = λ bytes log. log ++ written bytes ∷ [];
  on_message = some (λ payload log. log ++ message payload ∷ []);
}

abbrev fresh : Connection
fresh = record { state = open_state; in_buf = [] }

abbrev one_message : List ℕ
one_message = client_frame true 1 1 2 3 4 (codes "LIST")

read-Returns_example :
    (x : ReadResult × Connection × List Event) × (read log_peer (some one_message) fresh []
      ≡ some x)
read-Returns_example = read-Returns log_peer (some one_message) fresh []

messages : List (ℕ × ℕ × ℕ × ℕ × List ℕ)
messages = (1, 2, 3, 4, codes "LIST") ∷ (5, 6, 7, 8, codes "CREATE") ∷ []

reads-stream_example :
    reads log_peer (take 3 (stream messages) ∷ drop 3 (stream messages) ∷ []) fresh []
    ≡ some (ok, fresh, message (codes "LIST") ∷ message (codes "CREATE") ∷ [])
unfolding messages deliver masked
reads-stream_example =
    reads-stream log_peer (take 3 (stream messages)) (drop 3 (stream messages) ∷ []) messages []
      (omega arith) refl

abbrev half : List ℕ
half = 0x81 ∷ 0x84 ∷ []

short_input :
    read log_peer (some half) fresh [] ≡ some (ok, record { state = open_state; in_buf = half }, [])
unfolding read by_state handle_frames after_parse after_frames parse_frame parse_lengths
    read_payload read_length
short_input = refl

read-append_example :
    read log_peer (some (half ++ 9 ∷ 9 ∷ [])) fresh []
    ≡ read log_peer (some (9 ∷ 9 ∷ [])) (record { state = open_state; in_buf = half }) []
read-append_example = read-append log_peer fresh _ [] [] half (9 ∷ 9 ∷ []) refl short_input

read-upgrade_example :
    (response : List ℕ) × IsSwitching (codes "dGhlIHNhbXBsZSBub25jZQ==") response
    × (read log_peer
          (some (request get_line fields one_message))
          (record { state = handshake; in_buf = [] })
          []
        ≡ some (ok, record { state = open_state; in_buf = one_message }, written response ∷ []))
read-upgrade_example =
    read-upgrade log_peer [] _ get_line fields one_message b'd' (codes "GhlIHNhbXBsZSBub25jZQ==") []
      get-IsRequest refl key_found

read-not_upgrade_example :
    (response : List ℕ) × IsUpgradeRequired response
    × (read log_peer (some (request get_line [] [])) (record { state = handshake; in_buf = [] }) []
        ≡ some (err, record { state = handshake; in_buf = [] }, written response ∷ []))
read-not_upgrade_example =
    read-not_upgrade log_peer [] _ get_line [] [] [] (get-IsRequest.0, tt) refl refl

write_all_whole_example :
    write_all (wrote 2 ∷ interrupted ∷ wrote 9 ∷ failed ∷ []) (codes "PONG") ≡ codes "PONG"
write_all_whole_example =
    write_all_whole (wrote 2 ∷ interrupted ∷ wrote 9 ∷ failed ∷ []) (codes "PONG") (omega arith)
