-- ===== src/Server/Round.antt =====
-- src/server/main.cpp in the loop of reactor.cpp: what a round of the server calls.
use pong_pp.Common.{
  ℕ, suc, ◌≡◌, ◌≢◌, refl, ◌∙◌, false, Option, none, some, List, [], ◌==◌, arith, if_either, bit_and,
}
use pong_pp.Reactor.{Poll, find_handler, with_revents, poll_array, dispatch, run, state_of}
use pong_pp.Reactor.Laws.{find_handler-remove_handler, find_handler-on_readable, run_keeps}
use pong_pp.Reactor.Round.{
  IsTable, remove_handler-IsTable, on_readable-IsTable, call_each, dispatch-call_each,
}
use pong_pp.Signaling.State.{mem, is_none}
use pong_pp.Signaling.State as Signaling
use pong_pp.Ws.Connection.{ReadResult, ok, err, Connection, read}
use pong_pp.Server.{
  Os, IsOs, Handler, listener, client, World, player_peer, welcome, on_accept, destroy, after_read,
  on_client, handle, server, start,
}
use pong_pp.Server.Wiring.{IsWired, Wired, handle-IsWired, run-IsWired}

-- What a handler does to the table keeps one handler for each descriptor.
welcome-IsTable : (fd : Option ℕ) (w : World) → IsTable w.handlers → IsTable (welcome fd w).handlers
unfolding welcome
welcome-IsTable none w h = h
welcome-IsTable (some fd) w h = on_readable-IsTable fd (client w.next_player) w.handlers h

after_read-IsTable :
    (p : ℕ) (r : Option (ReadResult × Connection × Signaling.Server)) (w : World)
    → IsTable w.handlers
    → IsTable (after_read p r w).handlers
unfolding after_read destroy
after_read-IsTable p none w h = h
after_read-IsTable p (some (ok, c, hub)) w h = h
after_read-IsTable p (some (err, c, hub)) w h = remove_handler-IsTable (w.fd_of p) w.handlers h

handle-IsTable :
    (os : Os) (cb : Handler) (revents : ℕ) (w : World)
    → IsTable w.handlers
    → IsTable (handle os cb revents w).handlers
unfolding handle on_accept on_client
handle-IsTable os listener revents w h =
    if_either (λ (x : World). IsTable x.handlers) (bit_and revents os.pollin == 0) h
      (welcome-IsTable (os.accept w.calls w.open_fds) (record w { calls = suc w.calls }) h)
handle-IsTable os (client p) revents w h =
    if_either (λ (x : World). IsTable x.handlers) (mem p w.hub.players)
      (after_read-IsTable p (read (player_peer p) (os.read_bytes w.calls) (w.conn_of p) w.hub)
        (record w { calls = suc w.calls }) h)
      h

-- A handler leaves the entries of the other descriptors as they are.
welcome_apart :
    (lfd : ℕ) (new : Option ℕ) (w : World) (fd : ℕ) (cb : Handler)
    → ((x : ℕ) → new ≡ some x → mem x w.open_fds ≡ false)
    → IsWired lfd w
    → find_handler fd w.handlers ≡ some cb
    → find_handler fd (welcome new w).handlers ≡ some cb
unfolding welcome IsWired Wired
welcome_apart lfd none w fd cb fresh h e = e
welcome_apart lfd (some cfd) w fd cb fresh (own, listens, serves, alive, at, opens, bound) e =
    grind (
      arith,
      find_handler-on_readable cfd fd (client w.next_player) w.handlers,
      opens fd,
      fresh cfd refl,
      e,
    )

after_read_apart :
    (p : ℕ) (r : Option (ReadResult × Connection × Signaling.Server)) (w : World) (fd : ℕ)
    (cb : Handler)
    → fd ≢ w.fd_of p
    → find_handler fd w.handlers ≡ some cb
    → find_handler fd (after_read p r w).handlers ≡ some cb
unfolding after_read destroy
after_read_apart p none w fd cb differs e = e
after_read_apart p (some (ok, c, hub)) w fd cb differs e = e
after_read_apart p (some (err, c, hub)) w fd cb differs e =
    grind (arith, find_handler-remove_handler (w.fd_of p) fd w.handlers, e)

handle_apart :
    (os : Os)
    → IsOs os
    → (lfd : ℕ) (w : World) (fd revents : ℕ) (cb : Handler) (fd' : ℕ) (cb' : Handler)
    → IsWired lfd w
    → find_handler fd w.handlers ≡ some cb
    → find_handler fd' w.handlers ≡ some cb'
    → fd' ≢ fd
    → find_handler fd' (handle os cb revents w).handlers ≡ some cb'
unfolding handle on_accept on_client IsWired Wired IsOs
handle_apart os good lfd w fd revents listener fd' cb' h e e' differs =
    if_either (λ (x : World). find_handler fd' x.handlers ≡ some cb')
      (bit_and revents os.pollin == 0) e'
      (welcome_apart lfd (os.accept w.calls w.open_fds) (record w { calls = suc w.calls }) fd' cb'
        (λ x. good w.calls w.open_fds x) h e')
handle_apart os good lfd w fd revents (client p) fd' cb'
      (own, listens, serves, alive, at, opens, bound) e e' differs =
    if_either (λ (x : World). find_handler fd' x.handlers ≡ some cb') (mem p w.hub.players)
      (after_read_apart p (read (player_peer p) (os.read_bytes w.calls) (w.conn_of p) w.hub)
        (record w { calls = suc w.calls }) fd' cb' (λ same. differs (same ∙ at fd p e)) e')
      e'

run-IsTable :
    (os : Os) (lfd : ℕ) (polls : List Poll)
    → IsTable (state_of (server os) (run (server os) polls (start lfd))).handlers
unfolding server start
run-IsTable os lfd polls =
    run_keeps (server os) (λ w. IsTable w.handlers)
      (λ w fd revents cb h found. handle-IsTable os cb revents w h) (λ w h. h) polls (start lfd)
      (on_readable-IsTable lfd listener [] tt)

-- In every state in which the server returns or waits, as long as `accept` gives descriptors that
-- are not open, a round calls exactly the handlers that were registered when `poll` returned and
-- whose descriptors have events, once each, although the handlers add and remove others.
pub server-call_each :
    (os : Os) (lfd : ℕ) (polls : List Poll) (revents : ℕ → ℕ)
    → IsOs os
    → let w = state_of (server os) (run (server os) polls (start lfd)) in
      dispatch (server os) (with_revents revents (poll_array w.handlers)) w
      ≡ call_each (server os) revents w.handlers w
unfolding server
server-call_each os lfd polls revents good =
    dispatch-call_each (server os) (IsWired lfd)
      (λ w fd revents cb h found. handle-IsWired os good lfd cb revents w h)
      (λ w fd revents cb fd' cb' h e e' differs.
        handle_apart os good lfd w fd revents cb fd' cb' h e e' differs)
      revents (state_of (server os) (run (server os) polls (start lfd))) (run-IsTable os lfd polls)
      (run-IsWired os lfd polls good)
