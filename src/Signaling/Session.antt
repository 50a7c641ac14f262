-- ===== src/Signaling/Session.antt =====
-- src/server/signaling/player.cpp and rooms.cpp: a room is opened and joined.
use pong_pp.Common.{
  if◌then◌else◌, ℕ, ◌^◌, ◌<◌, ◌≡◌, refl, ◌∙◌, true, false, ◌⊎◌, inl, inr, Bool-cases, none, some,
  List, ◌++◌, codes, ◌==◌, ◌≢◌, arith,
}
use pong_pp.Common.Decimal.{to_string}
use pong_pp.Signaling.State.{Server, mem, send, update, expired}
use pong_pp.Signaling.Text.Codes.{parse_code-to_string, trim_end-to_string}
use pong_pp.Signaling.Verb
use pong_pp.Signaling.Rooms.{
  find_room, emplace, make_room, new_room, join_room, enter_as_host, enter_as_guest,
}
use pong_pp.Signaling.Player.{
  handle_create, handle_join, answer_join, tell_host, another, on_message,
}
use pong_pp.Signaling.Broadcast.{lobby_news, notify_lem}
use pong_pp.Signaling.Relay.{same, differ}
use pong_pp.Signaling.Dispatch.{on_message-create, on_message-join}

pub here {ℓ} : {A : Type ℓ} → (f : ℕ → A) (i : ℕ) (v : A) → update f i v i ≡ v
here f i v = rw (same i) refl

pub elsewhere {ℓ} : {A : Type ℓ} → (f : ℕ → A) (i j : ℕ) (v : A) → i ≢ j → update f i v j ≡ f j
elsewhere f i j v h = rw (differ i j h) refl

-- The server with `p` in a new room, before anybody is told.
abbrev pub opened : ℕ → Server → Server
opened p s = enter_as_host p s.next_address (make_room s)

pub find_room-emplace :
    (code a : ℕ) (rooms : List (ℕ × ℕ))
    → find_room code rooms ≡ none
    → find_room code (emplace code a rooms) ≡ some a
unfolding find_room emplace
find_room-emplace code a rooms h = rw (h, same code) refl

pub find_room-emplace_other :
    (c code a : ℕ) (rooms : List (ℕ × ℕ))
    → c ≢ code
    → find_room c (emplace code a rooms) ≡ find_room c rooms
unfolding find_room emplace
find_room-emplace_other c code a rooms h = ground (arith)

-- CREATE, in any state: the room is made with the next code and the sender as its host, the lobby
-- hears of it, and the sender is answered with that code; nothing else changes.
pub on_message-create_lem :
    (p : ℕ) (s : Server)
    → on_message p Verb.create s
      ≡ send p
          (Verb.created ++ codes " " ++ to_string s.next_code)
          (record (opened p s) { sent = s.sent ++ lobby_news (opened p s) })
unfolding handle_create new_room enter_as_host make_room
on_message-create_lem p s =
    on_message-create p s ∙ rw (handle_create, notify_lem (opened p s), same s.next_address) refl

join_room-open :
    (s : Server) (a p code : ℕ)
    → find_room code s.rooms ≡ some a
    → expired s (s.heap a).guest ≡ true
    → join_room code p s ≡ (
      some a,
      record (enter_as_guest p a s) { sent = s.sent ++ lobby_news (enter_as_guest p a s) },
    )
unfolding join_room enter_as_guest
join_room-open s a p code found free =
    rw (join_room, found, free, notify_lem (enter_as_guest p a s)) refl

join_room-refused :
    (s : Server) (p code : ℕ)
    → (find_room code s.rooms ≡ none)
      ⊎ ((a : ℕ) × (find_room code s.rooms ≡ some a) × (expired s (s.heap a).guest ≡ false))
    → join_room code p s ≡ (none, s)
unfolding join_room
join_room-refused s p code (inl missing) = rw (join_room, missing) refl
join_room-refused s p code (inr (a, found, full)) = rw (join_room, found, full) refl

nonzero : (code : ℕ) → 0 < code → (code == 0) ≡ false
nonzero code pos = ground arith

pub guest_told :
    (s : Server) (a p h code : ℕ)
    → 0 < code
    → code < 2 ^ 64
    → find_room code s.rooms ≡ some a
    → expired s (s.heap a).guest ≡ true
    → (s.heap a).host ≡ some h
    → mem h s.players ≡ true
    → p ≢ h
    → on_message p (Verb.join ++ codes " " ++ to_string code) s
      ≡ send p (Verb.ready ++ codes " guest") (
          send h
            (Verb.ready ++ codes " host")
            (record (enter_as_guest p a s) { sent = s.sent ++ lobby_news (enter_as_guest p a s) }))
unfolding handle_join join_room answer_join tell_host another enter_as_guest
guest_told s a p h code pos small found free host lives other =
    on_message-join p (to_string code) s
    ∙ rw
        (
          trim_end-to_string code,
          handle_join,
          parse_code-to_string code small,
          nonzero code pos,
          join_room-open s a p code found free,
          same a,
          host,
          lives,
          differ p h other,
        )
        refl

-- JOIN with the code, not 0 and below 2 ^ 64, of a room in the table that has no living guest and
-- whose host lives and is not the sender: the room's guest becomes the sender, whose room it becomes,
-- the lobby hears of that, then the host and the sender are told that the room is ready. Nothing else
-- changes.
pub on_message-join_lem :
    (s : Server) (a p h code : ℕ)
    → 0 < code
    → code < 2 ^ 64
    → find_room code s.rooms ≡ some a
    → expired s (s.heap a).guest ≡ true
    → (s.heap a).host ≡ some h
    → mem h s.players ≡ true
    → p ≢ h
    → let entered = record s {
      heap = λ b. if b == a then record (s.heap a) { guest = some p } else s.heap b;
      room_of = λ q. if q == p then some a else s.room_of q;
    } in
      on_message p (Verb.join ++ codes " " ++ to_string code) s
      ≡ send p (Verb.ready ++ codes " guest") (
          send h
            (Verb.ready ++ codes " host")
            (record entered { sent = s.sent ++ lobby_news entered }))
unfolding enter_as_guest
on_message-join_lem s a p h code pos small found free host lives other =
    guest_told s a p h code pos small found free host lives other

-- JOIN with a code below 2 ^ 64 that no room has, or that of a room with a guest who lives, is
-- answered with an error; nothing else changes.
pub on_message-join_refused :
    (s : Server) (p code : ℕ)
    → code < 2 ^ 64
    → (find_room code s.rooms ≡ none)
      ⊎ ((a : ℕ) × (find_room code s.rooms ≡ some a) × (expired s (s.heap a).guest ≡ false))
    → on_message p (Verb.join ++ codes " " ++ to_string code) s
      ≡ send p (Verb.error ++ codes " join_failed") s
unfolding handle_join join_room answer_join
on_message-join_refused s p code small why =
    on_message-join p (to_string code) s
    ∙ rw (trim_end-to_string code, handle_join, parse_code-to_string code small)
        (elim (Bool-cases (code == 0)) [
          | inl zero ↦ rw zero refl
          | inr some_code ↦ rw (some_code, join_room-refused s p code why) refl
        ])
