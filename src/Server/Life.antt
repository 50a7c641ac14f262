-- ===== src/Server/Life.antt =====
-- src/server/main.cpp and reactor.cpp: how long the server runs, and what is open when it ends.
use pong_pp.Common.{
  ℕ, suc, bit_and, ◌≡◌, refl, ◌∙◌, sym, Bool, true, false, ◌≢◌, inl, inr, Bool-cases, Option, none,
  some, List, [], ◌∷◌, ◌==◌, arith, if_either, if◌then◌else◌, All,
}
use pong_pp.Reactor.{Poll, failed, waiting, find_handler, run, is_empty, state_of}
use pong_pp.Reactor.Laws.{poll_rounds-waiting}
use pong_pp.Ws.Connection.{ReadResult, ok, err, Connection, read}
use pong_pp.Signaling.State as Signaling
use pong_pp.Signaling.State.{mem}
use pong_pp.Signaling.Rooms.{remove}
use pong_pp.Server.{
  listener, client, player_peer, Os, IsOs, Handler, World, server, start, destroy, destroy_all,
  leave_main, handle, on_accept, welcome, on_client, after_read,
}
use pong_pp.Server.Wiring.{
  run-IsWired, IsWired, Wired, handle-IsWired, start-IsWired, mem-remove_lem,
}

welcome_running : (fd : Option ℕ) (w : World) → (welcome fd w).running ≡ w.running
unfolding welcome
welcome_running none w = refl
welcome_running (some fd) w = refl

after_read_running :
    (p : ℕ) (r : Option (ReadResult × Connection × Signaling.Server)) (w : World)
    → (after_read p r w).running ≡ w.running
unfolding after_read destroy
after_read_running p none w = refl
after_read_running p (some (ok, c, hub)) w = refl
after_read_running p (some (err, c, hub)) w = refl

handle_running :
    (os : Os) (cb : Handler) (revents : ℕ) (w : World)
    → (handle os cb revents w).running ≡ w.running
unfolding handle on_accept on_client
handle_running os listener revents w =
    if_either (λ (x : World). x.running ≡ w.running) (bit_and revents os.pollin == 0) refl
      (welcome_running (os.accept w.calls w.open_fds) (record w { calls = suc w.calls }))
handle_running os (client p) revents w =
    if_either (λ (x : World). x.running ≡ w.running) (mem p w.hub.players)
      (after_read_running p (read (player_peer p) (os.read_bytes w.calls) (w.conn_of p) w.hub)
        (record w { calls = suc w.calls }))
      refl

some_handler :
    {H : Type 0} (fd : ℕ) (cb : H) (handlers : List (ℕ × H))
    → find_handler fd handlers ≡ some cb
    → is_empty handlers ≡ false
unfolding find_handler
some_handler fd cb [] e = absurd cc
some_handler fd cb (entry ∷ handlers) e = refl

-- As long as `poll` gives no error but EINTR and `accept` gives descriptors that are not open, the
-- server does not return, whatever the clients do: it waits in `poll`, with the listener, the
-- handlers, the players and the open descriptors in agreement.
pub run-waiting :
    (os : Os) (lfd : ℕ) (polls : List Poll)
    → IsOs os
    → All (λ poll. poll ≢ failed) polls
    → (w : World) × (run (server os) polls (start lfd) ≡ waiting w) × IsWired lfd w
unfolding run server IsWired Wired
run-waiting os lfd polls good succeed =
    let (w, e, (running, wired)) =
      poll_rounds-waiting (server os) (λ w. (w.running ≡ true) × IsWired lfd w)
        (λ w fd revents cb h found.
          (handle_running os cb revents w ∙ h.0, handle-IsWired os good lfd cb revents w h.1))
        (λ w h. (h.0, some_handler lfd listener w.handlers (listening lfd w h.1))) polls
        (record (start lfd) { running = true }) succeed (refl, start-IsWired lfd) in
    (w, e, wired)
  where
    listening : (lfd : ℕ) (w : World) → IsWired lfd w → find_handler lfd w.handlers ≡ some listener
    listening lfd w h = h.0

closed_all :
    (players : List ℕ) (w : World) (fd : ℕ)
    → (mem fd w.open_fds ≡ true → (p : ℕ) × (mem p players ≡ true) × (w.fd_of p ≡ fd))
    → mem fd (destroy_all players w).open_fds ≡ false
unfolding destroy_all destroy
closed_all [] w fd h = elim (Bool-cases (mem fd w.open_fds)) [
  | inl e ↦ absurd (let (p, none_left, at) = h e in cc)
  | inr e ↦ e
]
closed_all (p ∷ players) w fd h = closed_all players (destroy p w) fd λ e.
    let still : (fd == w.fd_of p ≡ false) × (mem fd w.open_fds ≡ true) =
      still_open (fd == w.fd_of p) (mem fd w.open_fds)
        (sym (mem-remove_lem fd (w.fd_of p) w.open_fds) ∙ e) in
    let (x, living, at) = h still.1 in (x, others x living (λ eq. grind (arith, still, at, eq)), at)
  where
    still_open : (b c : Bool) → (if b then false else c) ≡ true → (b ≡ false) × (c ≡ true)
    still_open true c e = absurd cc
    still_open false c e = (refl, e)

    others : (x : ℕ) → mem x (p ∷ players) ≡ true → x ≢ p → mem x players ≡ true
    others x e ne = ground arith

whose :
    (lfd fd : ℕ) (w : World)
    → IsWired lfd w
    → mem fd (remove lfd w.open_fds) ≡ true
    → (p : ℕ) × (mem p w.hub.players ≡ true) × (w.fd_of p ≡ fd)
unfolding IsWired Wired
whose lfd fd w (own, listens, serves, alive, at, opens, bound) e =
    go (find_handler fd w.handlers) refl
  where
    go :
        (r : Option Handler)
        → find_handler fd w.handlers ≡ r
        → (p : ℕ) × (mem p w.hub.players ≡ true) × (w.fd_of p ≡ fd)
    go none found = absurd (grind (arith, mem-remove_lem fd lfd w.open_fds, opens fd, found, e))
    go (some listener) found =
        absurd (grind (arith, mem-remove_lem fd lfd w.open_fds, listens fd found, e))
    go (some (client p)) found = (p, alive fd p found, at fd p found)

-- Whatever `poll` and `read` gave, as long as `accept` gave descriptors that were not open: when
-- `main` is at its end, no descriptor is open any more, neither the listener's nor a client's.
pub leave_main-closed :
    (os : Os) (lfd : ℕ) (polls : List Poll) (fd : ℕ)
    → IsOs os
    → mem fd (leave_main lfd (state_of (server os) (run (server os) polls (start lfd)))).open_fds
      ≡ false
unfolding leave_main
leave_main-closed os lfd polls fd good =
    closed lfd fd (state_of (server os) (run (server os) polls (start lfd)))
      (run-IsWired os lfd polls good)
  where
    closed : (lfd fd : ℕ) (w : World) → IsWired lfd w → mem fd (leave_main lfd w).open_fds ≡ false
    closed lfd fd w h =
        closed_all w.hub.players (record w { open_fds = remove lfd w.open_fds }) fd
          (whose lfd fd w h)
