-- ===== src/Server/Wiring.antt =====
-- src/server/main.cpp, reactor.cpp and hub.cpp: the handlers, the players and the open descriptors
-- agree, whatever comes in.
use pong_pp.Common.{
  ℕ, suc, ◌<◌, ◌≡◌, refl, ◌∙◌, ap, sym, subst, Bool, true, false, not, inl, inr, Bool-cases, Option,
  none, some, List, [], ◌∷◌, ◌==◌, arith, if_either, if_true, bit_and, if◌then◌else◌,
}
use pong_pp.Reactor.{Poll, find_handler, on_readable, remove_handler, run, state_of}
use pong_pp.Reactor.Laws.{find_handler-remove_handler, find_handler-on_readable, run_keeps}
use pong_pp.Signaling.State.{mem, update, is_none}
use pong_pp.Signaling.Rooms.{remove, register}
use pong_pp.Signaling.Player.{cleanup}
use pong_pp.Ws.Connection.{ReadResult, ok, err, Connection, read}
use pong_pp.Ws.Connection.Keeps.{world_of}
use pong_pp.Signaling.State as Signaling
use pong_pp.Server.{
  Os, IsOs, Handler, listener, client, World, player_peer, welcome, on_accept, destroy, after_read,
  on_client, handle, server, start,
}
use pong_pp.Server.Keeps.{read_same, cleanup_lem}

-- What is on which descriptor: the listener on its own and on no other; a client's handler on the
-- descriptor of a player that lives, and each such player on its own; the open descriptors are those
-- that have a handler; and the names of the players are used up in order.
unfoldable pub Wired : ℕ → (ℕ → Option Handler) → (ℕ → Bool) → (ℕ → ℕ) → (ℕ → Bool) → ℕ → Type 0
Wired lfd table lives fd_of is_open next =
    (table lfd ≡ some listener)
    × ((fd : ℕ) → table fd ≡ some listener → fd ≡ lfd)
    × ((p : ℕ) → lives p ≡ true → table (fd_of p) ≡ some (client p))
    × ((fd p : ℕ) → table fd ≡ some (client p) → lives p ≡ true)
    × ((fd p : ℕ) → table fd ≡ some (client p) → fd_of p ≡ fd)
    × ((fd : ℕ) → is_open fd ≡ not (is_none (table fd)))
    × ((p : ℕ) → lives p ≡ true → p < next)

-- A new client on a descriptor that was not open.
connect :
    (lfd : ℕ) (table table' : ℕ → Option Handler) (lives lives' : ℕ → Bool) (fd_of fd_of' : ℕ → ℕ)
    (is_open is_open' : ℕ → Bool) (next cfd : ℕ)
    → is_open cfd ≡ false
    → ((fd : ℕ) → table' fd ≡ (if fd == cfd then some (client next) else table fd))
    → ((p : ℕ) → lives' p ≡ (if p == next then true else lives p))
    → ((p : ℕ) → fd_of' p ≡ (if p == next then cfd else fd_of p))
    → ((fd : ℕ) → is_open' fd ≡ (if fd == cfd then true else is_open fd))
    → Wired lfd table lives fd_of is_open next
    → Wired lfd table' lives' fd_of' is_open' (suc next)
unfolding Wired
connect lfd table table' lives lives' fd_of fd_of' is_open is_open' next cfd new t l f o
      (own, listens, serves, alive, at, opens, bound) =
    (
      grind (arith, t lfd, own, opens lfd, new),
      λ fd e. grind (arith, t fd, e, listens fd),
      λ p e. grind (arith, t (fd_of' p), f p, l p, serves p, e, opens (fd_of p), new),
      λ fd p e. grind (arith, t fd, l p, alive fd p, e),
      λ fd p e. grind (arith, t fd, f p, alive fd p, bound p, at fd p, e),
      λ fd. grind (arith, t fd, o fd, opens fd),
      λ p e. grind (arith, l p, bound p, e),
    )

-- A client goes, with its handler and its descriptor.
disconnect :
    (lfd : ℕ) (table table' : ℕ → Option Handler) (lives lives' : ℕ → Bool) (fd_of : ℕ → ℕ)
    (is_open is_open' : ℕ → Bool) (next q : ℕ)
    → lives q ≡ true
    → ((fd : ℕ) → table' fd ≡ (if fd == fd_of q then none else table fd))
    → ((p : ℕ) → lives' p ≡ (if p == q then false else lives p))
    → ((fd : ℕ) → is_open' fd ≡ (if fd == fd_of q then false else is_open fd))
    → Wired lfd table lives fd_of is_open next
    → Wired lfd table' lives' fd_of is_open' next
unfolding Wired
disconnect lfd table table' lives lives' fd_of is_open is_open' next q living t l o
      (own, listens, serves, alive, at, opens, bound) =
    (
      grind (arith, t lfd, own, serves q, living),
      λ fd e. grind (arith, t fd, e, listens fd),
      λ p e. grind (arith, t (fd_of p), l p, serves p, serves q, living, e),
      λ fd p e. grind (arith, t fd, l p, alive fd p, at fd p, serves p, e),
      λ fd p e. grind (arith, t fd, at fd p, e),
      λ fd. grind (arith, t fd, o fd, opens fd),
      λ p e. grind (arith, l p, bound p, e),
    )

unfoldable pub IsWired : ℕ → World → Type 0
unfolding Wired
IsWired lfd w =
    Wired lfd (λ fd. find_handler fd w.handlers) (λ p. mem p w.hub.players) w.fd_of
      (λ fd. mem fd w.open_fds) w.next_player

pub mem-remove_lem :
    (q p : ℕ) (players : List ℕ)
    → mem q (remove p players) ≡ (if q == p then false else mem q players)
unfolding remove
mem-remove_lem q p [] = ground arith
mem-remove_lem q p (r ∷ players) = ground (arith, mem-remove_lem q p players)

register_lem :
    (q p : ℕ) (s : Signaling.Server)
    → mem q (register p s).players ≡ (if q == p then true else mem q s.players)
unfolding register
register_lem q p s = elim (Bool-cases (mem p s.players)) [
  | inl there ↦ rw there (elim (Bool-cases (q == p)) [
    | inl e ↦ rw e (ap (λ x. mem x s.players) (ground arith) ∙ there)
    | inr e ↦ rw e refl
  ])
  | inr new ↦ rw new (ground arith)
]

pub start-IsWired : (lfd : ℕ) → IsWired lfd (start lfd)
unfolding IsWired Wired start find_handler on_readable
start-IsWired lfd = (
  ground arith,
  λ fd e. ground arith,
  λ p e. absurd cc,
  λ fd p e. ground arith,
  λ fd p e. ground arith,
  λ fd. ground arith,
  λ p e. absurd cc,
)

welcome-IsWired :
    (lfd : ℕ) (fd : Option ℕ) (w : World)
    → ((x : ℕ) → fd ≡ some x → mem x w.open_fds ≡ false)
    → IsWired lfd w
    → IsWired lfd (welcome fd w)
unfolding IsWired Wired welcome register
welcome-IsWired lfd none w new h = h
welcome-IsWired lfd (some cfd) w new h =
    connect lfd (λ fd. find_handler fd w.handlers)
      (λ fd. find_handler fd (welcome (some cfd) w).handlers) (λ p. mem p w.hub.players)
      (λ p. mem p (welcome (some cfd) w).hub.players) w.fd_of (welcome (some cfd) w).fd_of
      (λ fd. mem fd w.open_fds) (λ fd. mem fd (welcome (some cfd) w).open_fds) w.next_player cfd
      (new cfd refl) (λ fd. find_handler-on_readable cfd fd (client w.next_player) w.handlers)
      (λ p. register_lem p w.next_player w.hub) (λ p. refl) (λ fd. ground arith) h

on_accept-IsWired :
    (os : Os)
    → IsOs os
    → (lfd revents : ℕ) (w : World) → IsWired lfd w
    → IsWired lfd (on_accept os revents w)
unfolding on_accept IsWired IsOs
on_accept-IsWired os good lfd revents w h =
    if_either (IsWired lfd) (bit_and revents os.pollin == 0) h (
      welcome-IsWired lfd (os.accept w.calls w.open_fds) (record w { calls = suc w.calls })
        (λ x e. good w.calls w.open_fds x e) h)

-- The rest of a client's handler keeps the wiring, if the read left the players as they were.
after_read-IsWired :
    (lfd p : ℕ) (r : Option (ReadResult × Connection × Signaling.Server)) (w : World)
    → mem p w.hub.players ≡ true
    → (world_of w.hub r).players ≡ w.hub.players
    → IsWired lfd w
    → IsWired lfd (after_read p r w)
unfolding after_read IsWired Wired destroy
after_read-IsWired lfd p none w living same h = h
after_read-IsWired lfd p (some (ok, c, hub)) w living same h =
    subst
      (λ players.
        Wired lfd (λ fd. find_handler fd w.handlers) (λ q. mem q players) w.fd_of
          (λ fd. mem fd w.open_fds) w.next_player)
      (sym same) h
after_read-IsWired lfd p (some (err, c, hub)) w living same h =
    disconnect lfd (λ fd. find_handler fd w.handlers)
      (λ fd. find_handler fd (remove_handler (w.fd_of p) w.handlers)) (λ q. mem q w.hub.players)
      (λ q. mem q (cleanup p hub).players) w.fd_of (λ fd. mem fd w.open_fds)
      (λ fd. mem fd (remove (w.fd_of p) w.open_fds)) w.next_player p living
      (λ fd. find_handler-remove_handler (w.fd_of p) fd w.handlers)
      (λ q. ap (mem q) (cleanup_lem p hub ∙ ap (remove p) same) ∙ mem-remove_lem q p w.hub.players)
      (λ fd. mem-remove_lem fd (w.fd_of p) w.open_fds) h

on_client-IsWired :
    (os : Os) (lfd p : ℕ) (w : World) → IsWired lfd w → IsWired lfd (on_client os p w)
unfolding on_client IsWired
on_client-IsWired os lfd p w h =
    if_true (IsWired lfd) (mem p w.hub.players)
      (λ living.
        after_read-IsWired lfd p (read (player_peer p) (os.read_bytes w.calls) (w.conn_of p) w.hub)
          (record w { calls = suc w.calls }) living
          (read_same p (os.read_bytes w.calls) (w.conn_of p) w.hub) h)
      h

pub handle-IsWired :
    (os : Os)
    → IsOs os
    → (lfd : ℕ) (cb : Handler) (revents : ℕ) (w : World) → IsWired lfd w
    → IsWired lfd (handle os cb revents w)
unfolding handle
handle-IsWired os good lfd listener revents w h = on_accept-IsWired os good lfd revents w h
handle-IsWired os good lfd (client p) revents w h = on_client-IsWired os lfd p w h

-- From the start of the server on, whatever `poll` and `read` give, and as long as `accept` gives
-- descriptors that are not open: when `Run` returns or waits, the listener's handler is on its
-- descriptor and on no other; each player that lives has its handler on its own descriptor, and
-- each handler of a client is that of such a player; and the open descriptors are those that have
-- a handler.
pub run-IsWired :
    (os : Os) (lfd : ℕ) (polls : List Poll)
    → IsOs os
    → IsWired lfd (state_of (server os) (run (server os) polls (start lfd)))
unfolding server IsWired
run-IsWired os lfd polls good =
    run_keeps (server os) (IsWired lfd)
      (λ w fd revents cb h found. handle-IsWired os good lfd cb revents w h) (λ w h. h) polls
      (start lfd) (start-IsWired lfd)
