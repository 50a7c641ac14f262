-- ===== src/Server/Rooms.antt =====
-- src/server/main.cpp with signaling/: the rooms of the running server.
use pong_pp.Common.{
  ℕ, suc, ◌≡◌, ◌∙◌, ap, ◌⊎◌, true, not, Option, none, some, List, if_either, if_true, bit_and, ◌==◌,
}
use pong_pp.Reactor.{Poll, find_handler, run, state_of}
use pong_pp.Reactor.Laws.{run_keeps}
use pong_pp.Signaling.State.{mem, is_none}
use pong_pp.Signaling.State as Signaling
use pong_pp.Signaling.Rooms.{find_room}
use pong_pp.Signaling.Housed.{IsHoused}
use pong_pp.Signaling.Housed.Say.{on_message-IsHoused}
use pong_pp.Signaling.Housed.Gone.{cleanup-IsHoused, register-IsHoused, at_most_two}
use pong_pp.Ws.Connection.{ReadResult, ok, err, Connection, read, deliver}
use pong_pp.Ws.Connection.Keeps.{world_of, read_keeps}
use pong_pp.Server.{
  Os, IsOs, Handler, listener, client, World, player_peer, welcome, on_accept, destroy, after_read,
  on_client, handle, server, start,
}
use pong_pp.Server.Keeps.{on_message_same}
use pong_pp.Server.Wiring.{IsWired, Wired, run-IsWired}

-- What comes in on a connection, the messages that it hands on included.
read-IsHoused :
    (p : ℕ) (input : Option (List ℕ)) (c : Connection) (s : Signaling.Server)
    → IsHoused s
    → mem p s.players ≡ true
    → IsHoused (world_of s (read (player_peer p) input c s))
unfolding player_peer deliver IsHoused
read-IsHoused p input c s h living =
    (read_keeps (player_peer p) (λ x. IsHoused x × (mem p x.players ≡ true)) (λ bytes w kept. kept)
      (λ payload w kept. (
        on_message-IsHoused p payload w kept.0 kept.1,
        ap (mem p) (on_message_same p payload w) ∙ kept.1,
      ))
      input c s (h, living)).0

welcome-IsHoused : (fd : Option ℕ) (w : World) → IsHoused w.hub → IsHoused (welcome fd w).hub
unfolding welcome
welcome-IsHoused none w h = h
welcome-IsHoused (some fd) w h = register-IsHoused w.next_player w.hub h

after_read-IsHoused :
    (p : ℕ) (r : Option (ReadResult × Connection × Signaling.Server)) (w : World)
    → IsHoused (world_of w.hub r)
    → IsHoused (after_read p r w).hub
unfolding after_read destroy
after_read-IsHoused p none w h = h
after_read-IsHoused p (some (ok, c, hub)) w h = h
after_read-IsHoused p (some (err, c, hub)) w h = cleanup-IsHoused p hub h

handle-IsHoused :
    (os : Os) (cb : Handler) (revents : ℕ) (w : World)
    → IsHoused w.hub
    → IsHoused (handle os cb revents w).hub
unfolding handle on_accept on_client
handle-IsHoused os listener revents w h =
    if_either (λ (x : World). IsHoused x.hub) (bit_and revents os.pollin == 0) h
      (welcome-IsHoused (os.accept w.calls w.open_fds) (record w { calls = suc w.calls }) h)
handle-IsHoused os (client p) revents w h =
    if_true (λ (x : World). IsHoused x.hub) (mem p w.hub.players)
      (λ living.
        after_read-IsHoused p (read (player_peer p) (os.read_bytes w.calls) (w.conn_of p) w.hub)
          (record w { calls = suc w.calls })
          (read-IsHoused p (os.read_bytes w.calls) (w.conn_of p) w.hub h living))
      h

start-IsHoused : (lfd : ℕ) → IsHoused (start lfd).hub
unfolding start IsHoused find_room
start-IsHoused lfd =
    ((λ c a e. absurd cc), (λ p a e. absurd cc), (λ p a e. absurd cc), (λ p a e. absurd cc))

run-IsHoused :
    (os : Os) (lfd : ℕ) (polls : List Poll)
    → IsHoused (state_of (server os) (run (server os) polls (start lfd))).hub
unfolding server
run-IsHoused os lfd polls =
    run_keeps (server os) (λ w. IsHoused w.hub)
      (λ w fd revents cb h found. handle-IsHoused os cb revents w h) (λ w h. h) polls (start lfd)
      (start-IsHoused lfd)

-- What `run-rooms` states of a player in a room.
unfoldable pub IsPlaying : World → ℕ → ℕ → Type 0
IsPlaying w p a =
    (mem p w.hub.players ≡ true)
    × (((w.hub.heap a).host ≡ some p) ⊎ ((w.hub.heap a).guest ≡ some p))
    × (find_handler (w.fd_of p) w.handlers ≡ some (client p))
    × (mem (w.fd_of p) w.open_fds ≡ true)

playing :
    (lfd : ℕ) (w : World)
    → IsWired lfd w
    → IsHoused w.hub
    → (p a : ℕ) → w.hub.room_of p ≡ some a
    → IsPlaying w p a
unfolding IsWired Wired IsHoused IsPlaying
playing lfd w wired housed p a e =
    let living = housed.2 p a e in
    let served = wired.2 p living in
    (living, housed.3 p a e, served, wired.5 (w.fd_of p) ∙ ap (λ r. not (is_none r)) served)

-- Whatever bytes the clients send, as long as `accept` gives descriptors that are not open, in
-- every state in which the server returns or waits: a player that is in a room lives, holds one of
-- its two places, and is served on its own open descriptor; and of three players in one room two
-- are the same.
pub run-rooms :
    (os : Os) (lfd : ℕ) (polls : List Poll)
    → IsOs os
    → let w = state_of (server os) (run (server os) polls (start lfd)) in
      ((p a : ℕ) → w.hub.room_of p ≡ some a → IsPlaying w p a)
      × ((p q r a : ℕ)
          → w.hub.room_of p ≡ some a
          → w.hub.room_of q ≡ some a
          → w.hub.room_of r ≡ some a
          → (p ≡ q) ⊎ ((p ≡ r) ⊎ (q ≡ r)))
run-rooms os lfd polls good =
    let w = state_of (server os) (run (server os) polls (start lfd)) in
    (
      playing lfd w (run-IsWired os lfd polls good) (run-IsHoused os lfd polls),
      λ p q r a. at_most_two w.hub a p q r (run-IsHoused os lfd polls),
    )
