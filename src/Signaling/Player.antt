-- ===== src/Signaling/Player.antt =====
-- src/server/signaling/player.cpp: what a player does with a message, and when its connection ends.
use pong_pp.Common.{ℕ, Option, none, some, List, ◌++◌, codes, bytes_eq, ◌==◌, if◌then◌else◌}
use pong_pp.Common.Decimal.{to_string}
use pong_pp.Signaling.State.{Room, Server, lock, send}
use pong_pp.Signaling.Text.{parse_code, trim_end, split_verb}
use pong_pp.Signaling.Verb
use pong_pp.Signaling.Rooms.{rooms_line, new_room, join_room, delete_room, leave_room, unregister}

-- The object that was locked, unless it is `self`.
unfoldable pub another : ℕ → Option ℕ → Option ℕ
another self none = none
another self (some p) = if p == self then none else some p

abbrev pub or_else {ℓ} : {A : Type ℓ} → Option A → Option A → Option A
or_else none b = b
or_else (some a) b = some a

-- OtherPlayer
unfoldable pub other_player : Server → Room → ℕ → Option ℕ
unfolding another
other_player s room self =
    or_else (another self (lock s room.host)) (another self (lock s room.guest))

-- Player::HandleCreate
unfoldable pub handle_create : ℕ → Server → Server
handle_create self s =
    let (a, s') = new_room self s in
    send self (Verb.created ++ codes " " ++ to_string (s'.heap a).code) s'

-- The READY message to the host, unless it is `self`.
unfoldable pub tell_host : Option ℕ → Server → Server
tell_host none s = s
tell_host (some host) s = send host (Verb.ready ++ codes " host") s

-- What follows `Join`: the room's address, or null.
unfoldable pub answer_join : ℕ → Option ℕ × Server → Server
answer_join self (none, s) = send self (Verb.error ++ codes " join_failed") s
answer_join self (some a, s) =
    send self (Verb.ready ++ codes " guest") (tell_host (another self (lock s (s.heap a).host)) s)

-- Player::HandleJoin
unfoldable pub handle_join : ℕ → List ℕ → Server → Server
unfolding answer_join tell_host
handle_join self code s =
    let parsed = parse_code code in
    answer_join self (if parsed == 0 then (none, s) else join_room parsed self s)

-- The other player of the room that `self` is in.
unfoldable pub peer_of : ℕ → Server → Option ℕ → Option ℕ
peer_of self s none = none
peer_of self s (some a) = other_player s (s.heap a) self

-- Player::HandleRelay
unfoldable pub handle_relay : ℕ → List ℕ → Server → Server
unfolding peer_of
handle_relay self body s = elim (peer_of self s (s.room_of self)) [
  | none ↦ send self (Verb.error ++ codes " not_in_room") s
  | some peer ↦ send peer (Verb.relay ++ codes " " ++ body) s
]

unfoldable pub dispatch : ℕ → List ℕ × List ℕ → Server → Server
dispatch self (v, body) s =
    if bytes_eq v Verb.list
    then send self (rooms_line s) s
    else if bytes_eq v Verb.create
    then handle_create self s
    else if bytes_eq v Verb.join
    then handle_join self body s
    else if bytes_eq v Verb.relay
    then handle_relay self body s
    else send self (Verb.error ++ codes " unknown_verb") s

-- Player::OnMessage
unfoldable pub on_message : ℕ → List ℕ → Server → Server
on_message self msg s = dispatch self (split_verb (trim_end msg)) s

-- peer->LeaveRoom(); peer->Send(verb::kPeerLeft)
unfoldable pub release_peer : Option ℕ → Server → Server
release_peer none s = s
release_peer (some peer) s = send peer Verb.peer_left (leave_room peer s)

-- The room that `self` is in is given up.
unfoldable pub leave_for_good : ℕ → Option ℕ → Server → Server
unfolding release_peer
leave_for_good self none s = s
leave_for_good self (some a) s =
    let s' = release_peer (other_player s (s.heap a) self) s in
    leave_room self (delete_room (s'.heap a).code s')

-- Player::Cleanup
unfoldable pub cleanup : ℕ → Server → Server
unfolding leave_for_good
cleanup self s = unregister self (leave_for_good self (s.room_of self) s)
