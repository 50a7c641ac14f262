-- ===== src/Signaling/Tests.antt =====
-- Runs of src/server/signaling on small servers, and the theorems at concrete inputs.
use pong_pp.Common.{
  if◌then◌else◌, ◌==◌, ℕ, ◌≡◌, refl, ◌⊎◌, inl, true, none, some, [], ◌∷◌, ◌++◌, codes, arith,
}
use pong_pp.Common.Decimal.{to_string}
use pong_pp.Signaling.State.{Server, send, update, expired, mem}
use pong_pp.Signaling.Text.{trim_end}
use pong_pp.Signaling.Verb
use pong_pp.Signaling.Rooms.{rooms_line, find_room, joinable_codes}
use pong_pp.Signaling.Player.{on_message}
use pong_pp.Signaling.Broadcast.{lobby_news}
use pong_pp.Signaling.Relay.{Occupants, Peer, on_message-relay_only}
use pong_pp.Signaling.Session.{on_message-join_lem}
use pong_pp.Signaling.Listing.{read_rooms, rooms_line-read_rooms}
use pong_pp.Signaling.Meet.{on_message-meet}
use pong_pp.Signaling.Abandoned.{Fresh, abandoned, on_message-create_twice}

-- Two players in the lobby.
abbrev lobby : Server
lobby = record {
  heap = λ a. record { code = 0; host = none; guest = none };
  next_address = 0;
  rooms = [];
  next_code = 1;
  players = 1 ∷ 2 ∷ [];
  room_of = λ p. none;
  sent = [];
}

-- The first has opened the room 1.
abbrev one_open : Server
one_open = record {
  heap = update lobby.heap 0 (record { code = 1; host = some 1; guest = none });
  next_address = 1;
  rooms = (1, 0) ∷ [];
  next_code = 2;
  players = 1 ∷ 2 ∷ [];
  room_of = update lobby.room_of 1 (some 0);
  sent = [];
}

-- The second has joined it.
abbrev playing : Server
playing = record one_open {
  heap = update lobby.heap 0 (record { code = 1; host = some 1; guest = some 2 });
  room_of = update one_open.room_of 2 (some 0);
}

playing-Occupants : Occupants playing 0 1 2
unfolding Occupants
playing-Occupants = (refl, refl, omega arith, inl (refl, refl))

on_message-relay_only_example :
    (on_message 2 (Verb.relay ++ codes " " ++ codes "hello") playing
      ≡ send 2 (Verb.error ++ codes " not_in_room") playing)
    ⊎ ((q : ℕ) × (on_message 2 (Verb.relay ++ codes " " ++ codes "hello") playing
          ≡ send q (Verb.relay ++ codes " " ++ trim_end (codes "hello")) playing)
        × Peer playing 2 q)
on_message-relay_only_example = on_message-relay_only playing 2 (codes "hello")

listed : find_room 1 one_open.rooms ≡ some 0
unfolding find_room
listed = refl

unlisted : find_room 1 lobby.rooms ≡ none
unfolding find_room
unlisted = refl

on_message-join_lem_example :
    let entered = record one_open {
      heap = λ b.
          if b == 0 then record { code = 1; host = some 1; guest = some 2 } else one_open.heap b;
      room_of = λ q. if q == 2 then some 0 else one_open.room_of q;
    } in
    on_message 2 (Verb.join ++ codes " " ++ to_string 1) one_open
    ≡ send 2 (Verb.ready ++ codes " guest") (
        send 1
          (Verb.ready ++ codes " host")
          (record entered { sent = one_open.sent ++ lobby_news entered }))
on_message-join_lem_example =
    on_message-join_lem one_open 0 2 1 1 (omega arith) (omega arith) listed refl refl refl
      (omega arith)

on_message-meet_example :
    let s' =
      on_message 2 (Verb.join ++ codes " " ++ to_string 1) (on_message 1 Verb.create lobby) in
    Occupants s' 0 1 2 × Occupants s' 0 2 1
on_message-meet_example =
    on_message-meet lobby 1 2 refl refl (omega arith) (omega arith) (omega arith) unlisted

lobby-Fresh : Fresh lobby
unfolding Fresh find_room
lobby-Fresh = (omega arith, refl, refl)

on_message-create_twice_example :
    let s' = abandoned 1 lobby in
    (mem 1 (joinable_codes s' s'.rooms) ≡ true)
    × (find_room 1 s'.rooms ≡ some 0)
    × (expired s' (s'.heap 0).host ≡ true)
on_message-create_twice_example = on_message-create_twice lobby 1 lobby-Fresh

rooms_line-read_rooms_example :
    read_rooms (rooms_line one_open) ≡ some (joinable_codes one_open one_open.rooms)
unfolding joinable_codes
rooms_line-read_rooms_example = rooms_line-read_rooms one_open (omega arith)
