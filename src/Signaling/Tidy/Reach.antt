-- ===== src/Signaling/Tidy/Reach.antt =====
-- src/server/main.cpp and src/server/signaling: the states that the server comes to, as steps of its
-- players, as long as none of them opens or joins a room while it is in one.
mod Runs
use pong_pp.Common.{
  ℕ, ◌+◌, ◌^◌, ◌<◌, ◌≡◌, refl, ◌∙◌, ap, sym, subst, Bool, true, false, ◌||◌, ◌⊎◌, inl, inr,
  Bool-cases, Option, none, some, List, [], ◌∷◌, ◌++◌, codes, ◌==◌, ◌≢◌, arith, if◌then◌else◌,
}
use pong_pp.Signaling.State.{Server, mem, expired, send}
use pong_pp.Signaling.Text.{trim_end, split_verb}
use pong_pp.Signaling.Rooms.{find_room, register, joinable_codes}
use pong_pp.Signaling.Player.{on_message, cleanup}
use pong_pp.Signaling.Tidy.{Waiting, IsListed, IsInside, IsTidy}
use pong_pp.Signaling.Tidy.Say.{MayEnter, on_message-IsTidy}
use pong_pp.Signaling.Tidy.Gone.{cleanup-IsTidy, peer_inside}
use pong_pp.Signaling.Verb
use pong_pp.Signaling.Relay.{Peer, on_message-relay_only}

-- The hub before anybody connects.
abbrev pub empty_server : Server
empty_server = record {
  heap = λ a. record { code = 0; host = none; guest = none };
  next_address = 0;
  rooms = [];
  next_code = 1;
  players = [];
  room_of = λ p. none;
  sent = [];
}

-- The object of a player that connects is no other one's: nothing names it yet.
unfoldable pub IsNew : ℕ → Server → Type 0
IsNew p s =
    (mem p s.players ≡ false)
    × (s.room_of p ≡ none)
    × ((a : ℕ) → ((s.heap a).host ≢ some p) × ((s.heap a).guest ≢ some p))

-- A player connects, sends a message, or its connection ends. Fewer than 2 ^ 64 rooms are opened.
pub data Step : Server → Server → Type 0 where
  connects : (p : ℕ) {s : Server} → IsNew p s → Step s (register p s)
  says :
      (p : ℕ) (msg : List ℕ) {s : Server}
      → mem p s.players ≡ true
      → s.next_code + 1 < 2 ^ 64
      → MayEnter p (split_verb (trim_end msg)).0 s
      → Step s (on_message p msg s)
  leaves : (p : ℕ) {s : Server} → mem p s.players ≡ true → Step s (cleanup p s)

pub data Reachable : Server → Type 0 where
  start : Reachable empty_server
  next : {s s' : Server} → Reachable s → Step s s' → Reachable s'

empty_server-IsTidy : IsTidy empty_server
unfolding IsTidy IsListed IsInside find_room
empty_server-IsTidy = ((λ c a e. cc), (λ p a e. cc))

pub joins_list : (x p : ℕ) (players : List ℕ) → mem x players ≡ true → mem x (p ∷ players) ≡ true
joins_list x p players e = ground (arith)

pub was_listed :
    (x p : ℕ) (players : List ℕ) → x ≢ p → mem x (p ∷ players) ≡ true → mem x players ≡ true
was_listed x p players h e = ground (arith)

register-IsTidy : (p : ℕ) (s : Server) → IsTidy s → IsNew p s → IsTidy (register p s)
unfolding IsTidy IsListed IsInside Waiting IsNew register
register-IsTidy p s tidy (absent, out, unnamed) =
    rw (register, absent)
      (
        (λ c a e.
            let (bound, code, below, (h, host, lives, there), guest) = tidy.0 c a e in
            (
              bound,
              code,
              below,
              (h, host, joins_list h p s.players lives, there),
              λ g place alive.
                  guest g place
                    (was_listed g p s.players (λ eq. (unnamed a).1 (place ∙ ap some eq)) alive),
            )),
        (λ x b e.
            let (lives, place, listed) = tidy.1 x b e in
            (joins_list x p s.players lives, place, listed)),
      )

-- In every state that is reached while players in a room neither open nor join one, and fewer than
-- 2 ^ 64 rooms are opened: a room in the table has its code, its host lives and is in it, as is a
-- guest of it who lives; and a player in a room lives, has one of its two places, and finds it in
-- the table.
pub Reachable-IsTidy : {s : Server} → Reachable s → IsTidy s
Reachable-IsTidy start = empty_server-IsTidy
Reachable-IsTidy (next {s} before (connects p new)) =
    register-IsTidy p s (Reachable-IsTidy before) new
Reachable-IsTidy (next {s} before (says p msg alive small may)) =
    on_message-IsTidy p msg s (Reachable-IsTidy before) small alive may
Reachable-IsTidy (next {s} before (leaves p alive)) = cleanup-IsTidy s p (Reachable-IsTidy before)

-- In every state that is reached while players in a room neither open nor join one, and fewer than
-- 2 ^ 64 rooms are opened, a message that a player in a room relays is written to one other player,
-- who lives and is in that same room, or answered to the sender with an error.
pub relay-same_room :
    {s : Server} (p a : ℕ) (body : List ℕ)
    → Reachable s
    → s.room_of p ≡ some a
    → (on_message p (Verb.relay ++ codes " " ++ body) s
        ≡ send p (Verb.error ++ codes " not_in_room") s)
      ⊎ ((q : ℕ) × (on_message p (Verb.relay ++ codes " " ++ body) s
            ≡ send q (Verb.relay ++ codes " " ++ trim_end body) s)
          × (p ≢ q)
          × (mem q s.players ≡ true)
          × (s.room_of q ≡ some a))
unfolding Peer
relay-same_room {s} p a body reached inside = elim (on_message-relay_only s p body) [
  | inl refused ↦ inl refused
  | inr (q, sent, peer) ↦
      let (b, inside', lives, differs, place) = peer in
      inr (q, sent, differs, lives, peer_inside s a p q (Reachable-IsTidy reached) inside peer)
]
