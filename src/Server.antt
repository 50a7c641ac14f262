-- ===== src/Server.antt =====
-- src/server/main.cpp: what the listener and the handler of a client do, with `~Connection`
-- (ws/connection.cpp), the constructor of `Player` (signaling/player.cpp), and the end of `main`.
-- The socket calls are a parameter; making the listener, `signal` and `printf` are left out.
pub mod Keeps
pub mod Wiring
pub mod Life
pub mod Serve
pub mod Round
pub mod Rooms
pub mod Main
mod Tests
use pong_pp.Common.{
  ℕ, suc, ◌≡◌, Bool, true, false, Option, none, some, List, [], ◌∷◌, ◌++◌, ◌==◌, bit_and,
  if◌then◌else◌,
}
use pong_pp.Ws.Connection.{State, handshake, ReadResult, ok, err, Peer, Connection, read}
use pong_pp.Signaling.State as Signaling
use pong_pp.Signaling.State.{update, mem}
use pong_pp.Signaling.Rooms.{register, remove}
use pong_pp.Signaling.Player.{on_message, cleanup}
use pong_pp.Signaling.Tidy.Reach.{empty_server}
use pong_pp.Reactor.{Poll, Loop, Exit, returned, waiting, on_readable, remove_handler, run}

-- POLLIN of poll.h, and what the n-th call of `accept`, given the open descriptors, and of `read`
-- gives.
pub record Os : Type 0 where
  pub pollin : ℕ
  pub accept : ℕ → List ℕ → Option ℕ
  pub read_bytes : ℕ → Option (List ℕ)

-- accept(2) gives a descriptor that is not open.
pub IsOs : Os → Type 0
IsOs os = (n : ℕ) (fds : List ℕ) (fd : ℕ) → os.accept n fds ≡ some fd → mem fd fds ≡ false

-- The two lambdas that are registered; that of a client holds a weak pointer to its player.
pub data Handler : Type 0 where
  listener : Handler
  client : ℕ → Handler

-- A player is named by the count of those before it. `fd_of` and `conn_of` are its `ws::Connection`;
-- the descriptors that are open are the system's.
pub record World : Type 0 where
  pub handlers : List (ℕ × Handler)
  pub running : Bool
  pub hub : Signaling.Server
  pub next_player : ℕ
  pub fd_of : ℕ → ℕ
  pub conn_of : ℕ → Connection
  pub open_fds : List ℕ
  pub calls : ℕ

-- The connection of a player: its writes go to the player's socket, its messages to `OnMessage`.
unfoldable pub player_peer : ℕ → Peer Signaling.Server
player_peer p = record {
  write = λ bytes s. record s { sent = s.sent ++ (p, bytes) ∷ [] };
  on_message = some (on_message p);
}

-- What follows `accept`: a player is made and registered, and its handler too.
unfoldable pub welcome : Option ℕ → World → World
welcome none w = w
welcome (some fd) w = record w {
  handlers = on_readable fd (client w.next_player) w.handlers;
  hub = register w.next_player w.hub;
  next_player = suc w.next_player;
  fd_of = update w.fd_of w.next_player fd;
  conn_of = update w.conn_of w.next_player (record { state = handshake; in_buf = [] });
  open_fds = fd ∷ w.open_fds;
}

-- The listener's handler.
unfoldable pub on_accept : Os → ℕ → World → World
on_accept os revents w =
    if bit_and revents os.pollin == 0
    then w
    else welcome (os.accept w.calls w.open_fds) (record w { calls = suc w.calls })

-- ~Player and ~Connection, when the last pointer to the player goes.
unfoldable pub destroy : ℕ → World → World
destroy p w = record w {
  handlers = remove_handler (w.fd_of p) w.handlers;
  open_fds = remove (w.fd_of p) w.open_fds;
}

-- What follows `Read`, which always returns.
unfoldable pub after_read : ℕ → Option (ReadResult × Connection × Signaling.Server) → World → World
after_read p none w = w
after_read p (some (ok, c, hub)) w = record w { hub = hub; conn_of = update w.conn_of p c }
after_read p (some (err, c, hub)) w =
    destroy p (record w { hub = cleanup p hub; conn_of = update w.conn_of p c })

-- A client's handler: the player may be gone.
unfoldable pub on_client : Os → ℕ → World → World
on_client os p w =
    if mem p w.hub.players
    then after_read p (read (player_peer p) (os.read_bytes w.calls) (w.conn_of p) w.hub)
        (record w { calls = suc w.calls })
    else w

unfoldable pub handle : Os → Handler → ℕ → World → World
handle os listener revents w = on_accept os revents w
handle os (client p) revents w = on_client os p w

unfoldable pub server : Os → Loop Handler World
server os = record {
  handlers = λ w. w.handlers;
  running = λ w. w.running;
  set_running = λ b w. record w { running = b };
  call = handle os;
}

-- `main` as far as `Run`: nothing but the listener.
unfoldable pub start : ℕ → World
start lfd = record {
  handlers = on_readable lfd listener [];
  running = false;
  hub = empty_server;
  next_player = 0;
  fd_of = λ p. 0;
  conn_of = λ p. record { state = handshake; in_buf = [] };
  open_fds = lfd ∷ [];
  calls = 0;
}

-- ~Hub: the players that are left go.
unfoldable pub destroy_all : List ℕ → World → World
destroy_all [] w = w
destroy_all (p ∷ players) w = destroy_all players (destroy p w)

-- What `main` does behind `Run`.
unfoldable pub leave_main : ℕ → World → World
leave_main lfd w = destroy_all w.hub.players (record w { open_fds = remove lfd w.open_fds })
