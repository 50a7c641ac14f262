-- ===== src/Signaling/Relay.antt =====
-- src/server/signaling/player.cpp: whom a relayed message reaches.
use pong_pp.Common.{
  ℕ, ◌≡◌, refl, ◌∙◌, true, false, ◌⊎◌, inl, inr, Bool-cases, Option, none, some, List, ◌++◌, codes,
  ◌==◌, ◌≢◌, arith,
}
use pong_pp.Signaling.State.{Server, mem, lock, send}
use pong_pp.Signaling.Text.{trim_end}
use pong_pp.Signaling.Verb
use pong_pp.Signaling.Player.{another, other_player, peer_of, handle_relay, on_message}
use pong_pp.Signaling.Dispatch.{on_message-relay}

-- `p` is in the room at `a`, whose two places are held by `p` and `q`, and `q` lives.
unfoldable pub Occupants : Server → ℕ → ℕ → ℕ → Type 0
Occupants s a p q =
    (s.room_of p ≡ some a)
    × (mem q s.players ≡ true)
    × (p ≢ q)
    × ((((s.heap a).host ≡ some p) × ((s.heap a).guest ≡ some q))
        ⊎ (((s.heap a).host ≡ some q) × ((s.heap a).guest ≡ some p)))

pub same : (p : ℕ) → (p == p) ≡ true
same p = ground arith

pub differ : (p q : ℕ) → p ≢ q → (q == p) ≡ false
differ p q h = ground arith

pub another_self : (s : Server) (p : ℕ) → another p (lock s (some p)) ≡ none
unfolding another
another_self s p = elim (Bool-cases (mem p s.players)) [
  | inl lives ↦ rw (lives, same p) refl
  | inr gone ↦ rw gone refl
]

another_peer :
    (s : Server) (p q : ℕ) → mem q s.players ≡ true → p ≢ q → another p (lock s (some q)) ≡ some q
unfolding another
another_peer s p q lives h = rw (lives, differ p q h) refl

pub other_player-Occupants :
    (s : Server) (a p q : ℕ) → Occupants s a p q → other_player s (s.heap a) p ≡ some q
unfolding other_player Occupants
other_player-Occupants s a p q (inside, lives, h, inl (host, guest)) =
    rw (host, guest, another_self s p, another_peer s p q lives h) refl
other_player-Occupants s a p q (inside, lives, h, inr (host, guest)) =
    rw (host, another_peer s p q lives h) refl

-- A message that one of two occupants of a room relays, the other of whom lives, is written, behind
-- the verb and without line ends at its end, to the other occupant's connection; nothing else
-- changes.
pub on_message-Occupants :
    (s : Server) (a p q : ℕ) (body : List ℕ)
    → Occupants s a p q
    → on_message p (Verb.relay ++ codes " " ++ body) s
      ≡ send q (Verb.relay ++ codes " " ++ trim_end body) s
unfolding handle_relay peer_of Occupants
on_message-Occupants s a p q body o =
    on_message-relay p body s ∙ rw (handle_relay, o.0, other_player-Occupants s a p q o) refl

-- One of the two places of a room: nobody else, or another player that lives.
pub other_place :
    (s : Server) (p : ℕ) (place : Option ℕ)
    → (another p (lock s place) ≡ none)
      ⊎ ((q : ℕ) × (another p (lock s place) ≡ some q)
          × (place ≡ some q)
          × (mem q s.players ≡ true)
          × (p ≢ q))
unfolding another
other_place s p none = inl refl
other_place s p (some q) = elim (Bool-cases (mem q s.players)) [
  | inr gone ↦ inl (rw gone refl)
  | inl lives ↦ elim (Bool-cases (q == p)) [
    | inl own ↦ inl (rw (lives, own) refl)
    | inr other ↦ inr (q, rw (lives, other) refl, refl, lives, ground arith)
  ]
]

-- `q` is a player that lives, is not `p`, and holds a place of the room that `p` is in.
unfoldable pub Peer : Server → ℕ → ℕ → Type 0
Peer s p q =
    (a : ℕ) × (s.room_of p ≡ some a)
    × (mem q s.players ≡ true)
    × (p ≢ q)
    × (((s.heap a).host ≡ some q) ⊎ ((s.heap a).guest ≡ some q))

pub peer_of-Peer :
    (s : Server) (p : ℕ) (w : Option ℕ)
    → s.room_of p ≡ w
    → (peer_of p s w ≡ none) ⊎ ((q : ℕ) × (peer_of p s w ≡ some q) × Peer s p q)
unfolding peer_of other_player Peer
peer_of-Peer s p none e = inl refl
peer_of-Peer s p (some a) e = elim (other_place s p (s.heap a).host) [
  | inr (q, found, host, lives, other) ↦ inr (q, rw found refl, (a, e, lives, other, inl host))
  | inl nobody ↦ elim (other_place s p (s.heap a).guest) [
    | inr (q, found, guest, lives, other) ↦
        inr (q, rw (nobody, found) refl, (a, e, lives, other, inr guest))
    | inl nobody' ↦ inl (rw (nobody, nobody') refl)
  ]
]

-- Whatever state the server is in, a relayed message is either written to one player, who lives, is
-- not the sender and holds a place of the sender's room, or answered to the sender with an error.
pub on_message-relay_only :
    (s : Server) (p : ℕ) (body : List ℕ)
    → (on_message p (Verb.relay ++ codes " " ++ body) s
        ≡ send p (Verb.error ++ codes " not_in_room") s)
      ⊎ ((q : ℕ) × (on_message p (Verb.relay ++ codes " " ++ body) s
            ≡ send q (Verb.relay ++ codes " " ++ trim_end body) s)
          × Peer s p q)
unfolding handle_relay
on_message-relay_only s p body = elim (peer_of-Peer s p (s.room_of p) refl) [
  | inl nobody ↦ inl (on_message-relay p body s ∙ rw (handle_relay, nobody) refl)
  | inr (q, found, peer) ↦ inr (q, on_message-relay p body s ∙ rw (handle_relay, found) refl, peer)
]
