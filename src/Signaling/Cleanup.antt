-- ===== src/Signaling/Cleanup.antt =====
-- src/server/signaling/player.cpp, `Cleanup`: the end of a player that is in a room.
use pong_pp.Common.{ℕ, ◌≡◌, refl, none, some, [], ◌∷◌, ◌++◌}
use pong_pp.Ws.Frame.{text, encode_frame}
use pong_pp.Signaling.State.{Server, send, update}
use pong_pp.Signaling.Verb
use pong_pp.Signaling.Rooms.{find_room, erase, remove, delete_room, unregister, leave_room}
use pong_pp.Signaling.Player.{cleanup, leave_for_good, release_peer, other_player}
use pong_pp.Signaling.Broadcast.{lobby_news, notify_lem}
use pong_pp.Signaling.Relay.{Occupants, other_player-Occupants}

delete_room-listed :
    (code b : ℕ) (s : Server)
    → find_room code s.rooms ≡ some b
    → delete_room code s ≡ record s {
      rooms = erase code s.rooms;
      sent = s.sent ++ lobby_news (record s { rooms = erase code s.rooms });
    }
unfolding delete_room
delete_room-listed code b s listed =
    rw (delete_room, listed, notify_lem (record s { rooms = erase code s.rooms })) refl

-- What is left when the room of `p` and `q` at `a` is given up, before the lobby is told.
abbrev pub closed : ℕ → ℕ → Server → Server
closed a q s = record (send q Verb.peer_left (leave_room q s)) {
  rooms = erase (s.heap a).code s.rooms;
}

-- `cleanup-Occupants` below, by what `OtherPlayer` returns.
pub cleanup-shared :
    (s : Server) (a p q b : ℕ)
    → s.room_of p ≡ some a
    → other_player s (s.heap a) p ≡ some q
    → find_room (s.heap a).code s.rooms ≡ some b
    → cleanup p s ≡ record s {
      rooms = erase (s.heap a).code s.rooms;
      players = remove p s.players;
      room_of = update (update s.room_of q none) p none;
      sent = (s.sent ++ (q, encode_frame text Verb.peer_left) ∷ []) ++ lobby_news (closed a q s);
    }
unfolding cleanup leave_for_good release_peer unregister leave_room send
cleanup-shared s a p q b inside other listed =
    rw
      (
        cleanup,
        inside,
        other,
        delete_room-listed (s.heap a).code b (send q Verb.peer_left (leave_room q s)) listed,
      )
      refl

-- The connection of a player ends that shares a listed room with a living one: the other is put out
-- of the room and told so, the room is taken off the table, the lobby hears of it, and the player is
-- in no room and not registered any more.
pub cleanup-Occupants :
    (s : Server) (a p q b : ℕ)
    → Occupants s a p q
    → find_room (s.heap a).code s.rooms ≡ some b
    → cleanup p s ≡ record s {
      rooms = erase (s.heap a).code s.rooms;
      players = remove p s.players;
      room_of = update (update s.room_of q none) p none;
      sent = (s.sent ++ (q, encode_frame text Verb.peer_left) ∷ []) ++ lobby_news (closed a q s);
    }
unfolding Occupants
cleanup-Occupants s a p q b o listed =
    cleanup-shared s a p q b o.0 (other_player-Occupants s a p q o) listed

-- The connection of a player ends that is alone in a listed room: the room is taken off the table,
-- the lobby hears of it, and the player is in no room and not registered any more.
pub cleanup-alone :
    (s : Server) (a p b : ℕ)
    → s.room_of p ≡ some a
    → other_player s (s.heap a) p ≡ none
    → find_room (s.heap a).code s.rooms ≡ some b
    → cleanup p s ≡ record s {
      rooms = erase (s.heap a).code s.rooms;
      players = remove p s.players;
      room_of = update s.room_of p none;
      sent = s.sent ++ lobby_news (record s { rooms = erase (s.heap a).code s.rooms });
    }
unfolding cleanup leave_for_good release_peer unregister leave_room
cleanup-alone s a p b inside alone listed =
    rw (cleanup, inside, alone, delete_room-listed (s.heap a).code b s listed) refl
