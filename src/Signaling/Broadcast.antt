-- ===== src/Signaling/Broadcast.antt =====
-- src/server/signaling/hub.cpp: whom the list of the rooms is sent to.
use pong_pp.Common.{
  ℕ, ◌≡◌, refl, ap, sym, subst, true, false, inl, inr, Bool-cases, Option, none, some, List, [],
  ◌∷◌, ◌++◌, append-nil, append_assoc, if◌then◌else◌, ◌==◌, ◌≢◌, arith,
}
use pong_pp.Ws.Frame.{text, encode_frame}
use pong_pp.Signaling.State.{Server, mem, is_none, expired, send}
use pong_pp.Signaling.Rooms.{
  joinable_codes, broadcast, notify, rooms_line, find_room, erase, remove,
}

-- The message to each of the players that is in no room.
abbrev pub to_lobby : List ℕ → (ℕ → Option ℕ) → List ℕ → List (ℕ × List ℕ)
to_lobby msg room_of [] = []
to_lobby msg room_of (p ∷ players) =
    let rest = to_lobby msg room_of players in
    if is_none (room_of p) then (p, encode_frame text msg) ∷ rest else rest

-- What `notify` writes.
abbrev pub lobby_news : Server → List (ℕ × List ℕ)
lobby_news s = to_lobby (rooms_line s) s.room_of s.players

broadcast_lem :
    (msg players : List ℕ) (s : Server)
    → broadcast msg players s ≡ record s { sent = s.sent ++ to_lobby msg s.room_of players }
unfolding broadcast send
broadcast_lem msg [] s = ap (λ w. record s { sent = w }) (sym (append-nil s.sent))
broadcast_lem msg (p ∷ players) s = elim (Bool-cases (is_none (s.room_of p))) [
  | inl lobby ↦
      rw
        (
          lobby,
          broadcast_lem msg players (send p msg s),
          append_assoc s.sent ((p, encode_frame text msg) ∷ []) (to_lobby msg s.room_of players),
        )
        refl
  | inr inside ↦ rw (inside, broadcast_lem msg players s) refl
]

-- The hub's broadcast writes the list of the open rooms once to each registered player that is in no
-- room, in their order, and changes nothing else.
pub notify_lem : (s : Server) → notify s ≡ record s { sent = s.sent ++ lobby_news s }
unfolding notify
notify_lem s = broadcast_lem (rooms_line s) s.players s

pub find_room-erase : (code : ℕ) (rooms : List (ℕ × ℕ)) → find_room code (erase code rooms) ≡ none
unfolding find_room erase
find_room-erase code [] = refl
find_room-erase code ((c, a) ∷ rooms) = ground (arith, find_room-erase code rooms)

pub find_room-erase_other :
    (c code : ℕ) (rooms : List (ℕ × ℕ))
    → c ≢ code
    → find_room c (erase code rooms) ≡ find_room c rooms
unfolding find_room erase
find_room-erase_other c code [] h = refl
find_room-erase_other c code ((d, a) ∷ rooms) h =
    ground (arith, find_room-erase_other c code rooms h)

pub mem-remove : (p : ℕ) (players : List ℕ) → mem p (remove p players) ≡ false
unfolding remove
mem-remove p [] = refl
mem-remove p (q ∷ players) = ground (arith, mem-remove p players)

pub mem-remove_other :
    (q p : ℕ) (players : List ℕ) → q ≢ p → mem q (remove p players) ≡ mem q players
unfolding remove
mem-remove_other q p [] h = refl
mem-remove_other q p (r ∷ players) h = ground (arith, mem-remove_other q p players h)

at_front :
    (s : Server) (code a c b : ℕ) (rooms : List (ℕ × ℕ))
    → (code == c) ≡ true
    → some b ≡ some a
    → expired s (s.heap a).guest ≡ true
    → mem code (joinable_codes s ((c, b) ∷ rooms)) ≡ true
unfolding joinable_codes
at_front s code a c b rooms e found free = rw (here, e) refl
  where
    here : expired s (s.heap b).guest ≡ true
    here = subst (λ i. expired s (s.heap i).guest ≡ true) (cc) free

further :
    (s : Server) (code c b : ℕ) (rooms : List (ℕ × ℕ))
    → mem code (joinable_codes s rooms) ≡ true
    → mem code (joinable_codes s ((c, b) ∷ rooms)) ≡ true
unfolding joinable_codes
further s code c b rooms h = elim (Bool-cases (expired s (s.heap b).guest)) [
  | inl free ↦ rw (free, h) (ground (arith))
  | inr full ↦ rw (full, h) refl
]

-- A room in the table whose guest's place is free is among the codes that are sent out.
pub joinable_codes-find_room :
    (s : Server) (code a : ℕ) (rooms : List (ℕ × ℕ))
    → find_room code rooms ≡ some a
    → expired s (s.heap a).guest ≡ true
    → mem code (joinable_codes s rooms) ≡ true
unfolding find_room joinable_codes
joinable_codes-find_room s code a [] found free = cc
joinable_codes-find_room s code a ((c, b) ∷ rooms) found free = elim (Bool-cases (code == c)) [
  | inl e ↦
      at_front s code a c b rooms e
        (subst (λ t. (if t then some b else find_room code rooms) ≡ some a) e found) free
  | inr e ↦ further s code c b rooms (
      joinable_codes-find_room s code a rooms
        (subst (λ t. (if t then some b else find_room code rooms) ≡ some a) e found) free)
]
