-- ===== src/Signaling/Abandoned.antt =====
-- src/server/signaling/player.cpp and rooms.cpp: the room that a player leaves behind.
use pong_pp.Common.{
  ℕ, suc, ◌+◌, ◌^◌, ◌<◌, ◌≡◌, refl, ◌∙◌, ap, sym, subst, true, none, some, ◌++◌, ◌≢◌, arith, u64,
}
use pong_pp.Signaling.State.{Server, mem, send, update, expired}
use pong_pp.Signaling.Verb
use pong_pp.Signaling.Rooms.{joinable_codes, find_room, erase, remove, make_room, enter_as_host}
use pong_pp.Signaling.Player.{on_message, cleanup, other_player}
use pong_pp.Signaling.Broadcast.{
  joinable_codes-find_room, lobby_news, find_room-erase_other, mem-remove,
}
use pong_pp.Signaling.Relay.{another_self, same, differ}
use pong_pp.Signaling.Session.{on_message-create_lem, find_room-emplace_other}
use pong_pp.Signaling.Cleanup.{cleanup-alone}
use pong_pp.Signaling.Meet.{after_create, created_room}

next_differs : (n : ℕ) → n ≢ suc n
next_differs n = omega arith

-- The server after two CREATEs of the same player.
abbrev after_two : ℕ → Server → Server
after_two p s = after_create p (after_create p s)

unfoldable pub Fresh : Server → Type 0
Fresh s =
    (s.next_code + 1 < 2 ^ 64)
    × (find_room s.next_code s.rooms ≡ none)
    × (find_room (s.next_code + 1) s.rooms ≡ none)

next_code_lem : (s : Server) (p : ℕ) → Fresh s → (after_create p s).next_code ≡ s.next_code + 1
unfolding Fresh enter_as_host make_room send
next_code_lem s p (small, first, second) = omega arith

next_unlisted :
    (s : Server) (p : ℕ)
    → Fresh s
    → find_room (after_create p s).next_code (after_create p s).rooms ≡ none
unfolding Fresh enter_as_host make_room send
next_unlisted s p (small, first, second) =
    find_room-emplace_other (u64 (s.next_code + 1)) s.next_code s.next_address s.rooms (omega arith)
    ∙ ap (λ c. find_room c s.rooms) step
    ∙ second
  where
    step : u64 (s.next_code + 1) ≡ s.next_code + 1
    step = omega arith

first_listed :
    (s : Server) (p : ℕ)
    → Fresh s
    → find_room s.next_code (after_two p s).rooms ≡ some s.next_address
unfolding Fresh enter_as_host make_room send
first_listed s p (small, first, second) =
    find_room-emplace_other s.next_code (after_create p s).next_code (suc s.next_address)
      (after_create p s).rooms (omega arith)
    ∙ created_room s p first

second_listed :
    (s : Server) (p : ℕ)
    → Fresh s
    → find_room (after_create p s).next_code (after_two p s).rooms ≡ some (suc s.next_address)
unfolding enter_as_host make_room send
second_listed s p f = created_room (after_create p s) p (next_unlisted s p f)

second_room :
    (s : Server) (p : ℕ)
    → (after_two p s).heap (suc s.next_address)
      ≡ record { code = (after_create p s).next_code; host = some p; guest = none }
unfolding enter_as_host make_room send
second_room s p = rw (same (suc s.next_address)) refl

alone_in_second :
    (s : Server) (p : ℕ)
    → other_player (after_two p s) ((after_two p s).heap (suc s.next_address)) p ≡ none
unfolding other_player
alone_in_second s p = rw (second_room s p, another_self (after_two p s) p) refl

first_room :
    (s : Server) (p : ℕ)
    → (after_two p s).heap s.next_address
      ≡ record { code = s.next_code; host = some p; guest = none }
unfolding enter_as_host make_room send
first_room s p =
    rw
      (
        differ (suc s.next_address) s.next_address (λ e. next_differs s.next_address (sym e)),
        same s.next_address,
      )
      refl

second_inside : (s : Server) (p : ℕ) → (after_two p s).room_of p ≡ some (suc s.next_address)
unfolding enter_as_host make_room send
second_inside s p = rw (same p) refl

-- The server once the player of two CREATEs is gone.
pub abandoned : ℕ → Server → Server
abandoned p s = cleanup p (on_message p Verb.create (on_message p Verb.create s))

left_code :
    (s : Server) (p : ℕ)
    → ((after_two p s).heap (suc s.next_address)).code ≡ (after_create p s).next_code
left_code s p = ap (λ r. r.code) (second_room s p)

-- What is left of the two rooms.
abbrev leftover : ℕ → Server → Server
leftover p s = record (after_two p s) {
  rooms = erase ((after_two p s).heap (suc s.next_address)).code (after_two p s).rooms;
  players = remove p (after_two p s).players;
  room_of = update (after_two p s).room_of p none;
  sent =
      (after_two p s).sent
      ++ lobby_news (record (after_two p s) {
        rooms = erase ((after_two p s).heap (suc s.next_address)).code (after_two p s).rooms;
      });
}

abandoned_lem : (s : Server) (p : ℕ) → Fresh s → abandoned p s ≡ leftover p s
unfolding abandoned
abandoned_lem s p f =
    ap (cleanup p) (
      ap (on_message p Verb.create) (on_message-create_lem p s)
      ∙ on_message-create_lem p (after_create p s))
    ∙ cleanup-alone (after_two p s) (suc s.next_address) p (suc s.next_address) (second_inside s p)
        (alone_in_second s p)
        (ap (λ c. find_room c (after_two p s).rooms) (left_code s p) ∙ second_listed s p f)

still_listed :
    (s : Server) (p : ℕ)
    → Fresh s
    → find_room s.next_code (leftover p s).rooms ≡ some s.next_address
still_listed s p f =
    ap (λ c. find_room s.next_code (erase c (after_two p s).rooms))
      (left_code s p ∙ next_code_lem s p f)
    ∙ find_room-erase_other s.next_code (s.next_code + 1) (after_two p s).rooms (omega arith)
    ∙ first_listed s p f

-- A player that sends CREATE twice, while the next two codes are unused and below 2 ^ 64, and whose
-- connection then ends leaves its first room behind: the room is still in the table and its code is
-- among those sent out as open, but its host does not live.
pub on_message-create_twice :
    (s : Server) (p : ℕ)
    → Fresh s
    → let s' = abandoned p s in
      (mem s.next_code (joinable_codes s' s'.rooms) ≡ true)
      × (find_room s.next_code s'.rooms ≡ some s.next_address)
      × (expired s' (s'.heap s.next_address).host ≡ true)
unfolding abandoned
on_message-create_twice s p f =
    subst
      (λ t.
        (mem s.next_code (joinable_codes t t.rooms) ≡ true)
        × (find_room s.next_code t.rooms ≡ some s.next_address)
        × (expired t (t.heap s.next_address).host ≡ true))
      (sym (abandoned_lem s p f))
      (
        joinable_codes-find_room (leftover p s) s.next_code s.next_address (leftover p s).rooms
            (still_listed s p f) (ap (λ r. expired (leftover p s) r.guest) (first_room s p)),
        still_listed s p f,
        ap (λ r. expired (leftover p s) r.host) (first_room s p) ∙ nobody_left,
      )
  where
    nobody_left : expired (leftover p s) (some p) ≡ true
    nobody_left = rw (mem-remove p (after_two p s).players) refl
