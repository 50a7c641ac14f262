-- ===== src/Server/Serve.antt =====
-- src/server/main.cpp with ws/connection.cpp and signaling/player.cpp: from the bytes at one
-- client's socket to the bytes that go out at another's.
use pong_pp.Common.{
  ℕ, suc, ◌≡◌, refl, ◌∙◌, ap, sym, ◌≤◌, true, none, some, List, [], ◌∷◌, ◌++◌, codes, length,
  append-nil,
}
use pong_pp.Ws.Frame.{text, encode_frame, max_frame_payload}
use pong_pp.Ws.Frame.Client.{client_frame}
use pong_pp.Ws.Connection.{open_state, ok, err, read, deliver}
use pong_pp.Ws.Connection.Read.{read-end, read-stream}
use pong_pp.Signaling.State.{Server, mem, send, update}
use pong_pp.Signaling.Text.{trim_end}
use pong_pp.Signaling.Verb
use pong_pp.Signaling.Rooms.{find_room, erase, remove}
use pong_pp.Signaling.Player.{on_message}
use pong_pp.Signaling.Broadcast.{lobby_news}
use pong_pp.Signaling.Relay.{Occupants, on_message-Occupants}
use pong_pp.Signaling.Cleanup.{closed, cleanup-Occupants}
use pong_pp.Reactor.{remove_handler}
use pong_pp.Server.{Os, World, player_peer, on_client, after_read, destroy}

-- The bytes of one masked message are read by the player's connection, and handed to the player.
read-one :
    (p a b c d : ℕ) (msg : List ℕ) (s : Server)
    → length msg ≤ max_frame_payload
    → read
        (player_peer p)
        (some (client_frame true 1 a b c d msg))
        (record { state = open_state; in_buf = [] })
        s
      ≡ some (ok, record { state = open_state; in_buf = [] }, on_message p msg s)
unfolding player_peer deliver
read-one p a b c d msg s fits =
    ap (λ bytes. read (player_peer p) (some bytes) (record { state = open_state; in_buf = [] }) s)
      (sym (append-nil (client_frame true 1 a b c d msg)))
    ∙ read-stream (player_peer p) ((a, b, c, d, msg) ∷ []) s (fits, tt)

-- A player that lives, whose connection is open with nothing read ahead, and who shares a room
-- with another one that lives, sends the masked frame of a RELAY message of at most 2 ^ 20 bytes,
-- all of which comes in at once: the server writes one text frame with that message, without line
-- ends at its end, to the other player's connection. Nothing else changes, but that a call was
-- made.
pub on_client-relay :
    (os : Os) (w : World) (room p q a b c d : ℕ) (body : List ℕ)
    → Occupants w.hub room p q
    → mem p w.hub.players ≡ true
    → w.conn_of p ≡ record { state = open_state; in_buf = [] }
    → length (Verb.relay ++ codes " " ++ body) ≤ max_frame_payload
    → os.read_bytes w.calls ≡ some (client_frame true 1 a b c d (Verb.relay ++ codes " " ++ body))
    → on_client os p w ≡ record w {
      calls = suc w.calls;
      conn_of = update w.conn_of p (record { state = open_state; in_buf = [] });
      hub = record w.hub {
        sent = w.hub.sent ++ (q, encode_frame text (Verb.relay ++ codes " " ++ trim_end body)) ∷ [];
      };
    }
unfolding on_client after_read send
on_client-relay os w room p q a b c d body o living is_open fits arrives =
    rw
      (
        living,
        arrives,
        is_open,
        read-one p a b c d (Verb.relay ++ codes " " ++ body) w.hub fits,
        on_message-Occupants w.hub room p q body o,
      )
      refl

-- The connection ends of a player that lives and shares a listed room with another one that lives:
-- the other is put out of the room and told so, the room is taken off the table, the lobby hears
-- of it, and the player, its handler and its descriptor are gone.
pub on_client-lost :
    (os : Os) (w : World) (room p q b : ℕ)
    → Occupants w.hub room p q
    → mem p w.hub.players ≡ true
    → find_room (w.hub.heap room).code w.hub.rooms ≡ some b
    → os.read_bytes w.calls ≡ none
    → on_client os p w ≡ record w {
      calls = suc w.calls;
      conn_of = update w.conn_of p (w.conn_of p);
      handlers = remove_handler (w.fd_of p) w.handlers;
      open_fds = remove (w.fd_of p) w.open_fds;
      hub = record w.hub {
        rooms = erase (w.hub.heap room).code w.hub.rooms;
        players = remove p w.hub.players;
        room_of = update (update w.hub.room_of q none) p none;
        sent =
            (w.hub.sent ++ (q, encode_frame text Verb.peer_left) ∷ [])
            ++ lobby_news (closed room q w.hub);
      };
    }
unfolding on_client after_read destroy
on_client-lost os w room p q b o living listed ends =
    rw (living, ends, read_ends, cleanup-Occupants w.hub room p q b o listed) refl
  where
    read_ends : read (player_peer p) none (w.conn_of p) w.hub ≡ some (err, w.conn_of p, w.hub)
    read_ends = read-end (player_peer p) (w.conn_of p) w.hub
