-- ===== src/Server/Tests.antt =====
-- A system with two descriptors to give away, a server on it, and the theorems at them.
use pong_pp.Common.{
  ℕ, ◌≡◌, ◌⊎◌, refl, ◌≤◌, true, Option, none, some, List, [], ◌∷◌, ◌++◌, inl, codes, ◌==◌, length,
  arith, if◌then◌else◌,
}
use pong_pp.Ws.Frame.{text, encode_frame, max_frame_payload}
use pong_pp.Ws.Frame.Client.{client_frame}
use pong_pp.Signaling.Player.{cleanup, leave_for_good}
use pong_pp.Ws.Handshake.Request.{request}
use pong_pp.Ws.Handshake.Tests.{get_line, fields}
use pong_pp.Ws.Connection.{read, open_state}
use pong_pp.Signaling.State.{Server, mem, update}
use pong_pp.Signaling.Text.{trim_end}
use pong_pp.Signaling.Verb
use pong_pp.Signaling.Rooms.{find_room, erase, remove, register, unregister}
use pong_pp.Signaling.Broadcast.{lobby_news}
use pong_pp.Signaling.Relay.{Occupants}
use pong_pp.Signaling.Cleanup.{closed}
use pong_pp.Reactor.{
  Poll, ready, interrupted, failed, waiting, on_readable, find_handler, remove_handler, poll_array,
  with_revents, dispatch, poll_rounds, after_poll, run, state_of,
}
use pong_pp.Reactor.Round.{call_each}
use pong_pp.Server.{
  after_read, destroy, player_peer, Os, IsOs, listener, client, World, on_accept, on_client,
  welcome, handle, server, start,
}
use pong_pp.Server.Wiring.{IsWired, run-IsWired}
use pong_pp.Server.Life.{run-waiting}
use pong_pp.Server.Serve.{on_client-relay, on_client-lost}
use pong_pp.Server.Round.{server-call_each}
use pong_pp.Common.Int.{pos}
use pong_pp.Server.Main.{Setup, port, make_listener, main, IsProper, main-IsProper}
use pong_pp.Server.Rooms.{IsPlaying, run-rooms}

abbrev hello : List ℕ
hello = Verb.relay ++ codes " " ++ codes "hello"

-- It gives away the descriptors 5 and 6.
abbrev give : ℕ → List ℕ → Option ℕ
give n fds = if mem 5 fds then (if mem 6 fds then none else some 6) else some 5

abbrev quiet : Os
quiet = record { pollin = 1; accept = give; read_bytes = λ n. none }

abbrev talking : Os
talking = record quiet { read_bytes = λ n. some (client_frame true 1 1 2 3 4 hello) }

quiet-IsOs : IsOs quiet
unfolding IsOs
quiet-IsOs n fds fd e = ground arith

-- A client comes, then it is gone and in the same round another one comes and gets its descriptor.
abbrev polls : List Poll
polls = ready (λ fd. if fd == 3 then 1 else 0) ∷ interrupted ∷ ready (λ fd. 1) ∷ []

descriptor_again :
    poll_array (state_of (server quiet) (run (server quiet) polls (start 3))).handlers ≡ 5 ∷ 3 ∷ []
unfolding run server poll_rounds after_poll dispatch start handle on_accept on_client welcome
    on_readable find_handler remove_handler register after_read read destroy cleanup leave_for_good
    unregister remove player_peer
descriptor_again = refl

run-IsWired_example : IsWired 3 (state_of (server quiet) (run (server quiet) polls (start 3)))
run-IsWired_example = run-IsWired quiet 3 polls quiet-IsOs

run-waiting_example : (w : World) × (run (server quiet) polls (start 3) ≡ waiting w) × IsWired 3 w
run-waiting_example = run-waiting quiet 3 polls quiet-IsOs ((λ e. cc), ((λ e. cc), ((λ e. cc), tt)))

server-call_each_example :
    let w = state_of (server quiet) (run (server quiet) polls (start 3)) in
    dispatch (server quiet) (with_revents (λ fd. 1) (poll_array w.handlers)) w
    ≡ call_each (server quiet) (λ fd. 1) w.handlers w
server-call_each_example = server-call_each quiet 3 polls (λ fd. 1) quiet-IsOs

-- The players 0 and 1 play in the room 1.
abbrev hub : Server
hub = record {
  heap = λ a. record { code = 1; host = some 0; guest = some 1 };
  next_address = 1;
  rooms = (1, 0) ∷ [];
  next_code = 2;
  players = 1 ∷ 0 ∷ [];
  room_of = λ p. some 0;
  sent = [];
}

abbrev playing : World
playing = record {
  handlers = (6, client 1) ∷ (5, client 0) ∷ (3, listener) ∷ [];
  running = true;
  hub = hub;
  next_player = 2;
  fd_of = λ p. if p == 0 then 5 else 6;
  conn_of = λ p. record { state = open_state; in_buf = [] };
  open_fds = 6 ∷ 5 ∷ 3 ∷ [];
  calls = 9;
}

hub-Occupants : Occupants hub 0 0 1
unfolding Occupants
hub-Occupants = (refl, refl, omega arith, inl (refl, refl))

hello-fits : length hello ≤ max_frame_payload
hello-fits = omega arith

listed : find_room 1 hub.rooms ≡ some 0
unfolding find_room
listed = refl

on_client-relay_example : on_client talking 0 playing ≡ record playing {
  calls = 10;
  conn_of = update playing.conn_of 0 (record { state = open_state; in_buf = [] });
  hub = record hub {
    sent = [] ++ (1, encode_frame text (Verb.relay ++ codes " " ++ trim_end (codes "hello"))) ∷ [];
  };
}
on_client-relay_example =
    on_client-relay talking playing 0 0 1 1 2 3 4 (codes "hello") hub-Occupants refl refl hello-fits
      refl

on_client-lost_example : on_client quiet 0 playing ≡ record playing {
  calls = 10;
  conn_of = update playing.conn_of 0 (playing.conn_of 0);
  handlers = remove_handler 5 playing.handlers;
  open_fds = remove 5 playing.open_fds;
  hub = record hub {
    rooms = erase 1 hub.rooms;
    players = remove 0 hub.players;
    room_of = update (update hub.room_of 1 none) 0 none;
    sent = ([] ++ (1, encode_frame text Verb.peer_left) ∷ []) ++ lobby_news (closed 0 1 hub);
  };
}
on_client-lost_example = on_client-lost quiet playing 0 0 1 0 hub-Occupants refl listed refl

-- A client that comes, upgrades its connection and opens a room.
abbrev opening : Os
opening = record quiet {
  read_bytes = λ n.
      some (if n == 1 then request get_line fields [] else client_frame true 1 1 2 3 4 Verb.create);
}

abbrev creation : List Poll
creation =
    ready (λ fd. if fd == 3 then 1 else 0)
    ∷ ready (λ fd. if fd == 5 then 1 else 0)
    ∷ ready (λ fd. if fd == 5 then 1 else 0)
    ∷ []

run-rooms_example :
    let w = state_of (server opening) (run (server opening) creation (start 3)) in
    ((p a : ℕ) → w.hub.room_of p ≡ some a → IsPlaying w p a)
    × ((p q r a : ℕ)
        → w.hub.room_of p ≡ some a
        → w.hub.room_of q ≡ some a
        → w.hub.room_of r ≡ some a
        → (p ≡ q) ⊎ ((p ≡ r) ⊎ (q ≡ r)))
unfolding IsOs
run-rooms_example = run-rooms opening 3 creation quiet-IsOs

-- The listener gets the descriptor 3, and poll fails in the end.
abbrev setup : Setup
setup = record {
  env_port = some (pos 8080);
  socket = some 3;
  bind = λ fd number. true;
  listen = λ fd backlog. true;
}

main-IsProper_example :
    IsProper
      (make_listener setup (port setup))
      (ready (λ fd. 1) ∷ failed ∷ [])
      (main setup quiet (ready (λ fd. 1) ∷ failed ∷ []))
main-IsProper_example = main-IsProper setup quiet (ready (λ fd. 1) ∷ failed ∷ []) quiet-IsOs
