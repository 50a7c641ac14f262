-- ===== src/Signaling/Housed/Say.antt =====
-- A message of any player, whatever it is.
use pong_pp.Common.{
  ℕ, ◌≡◌, refl, true, inl, inr, Bool-cases, Option, none, some, List, bytes_eq, if_either,
  if◌then◌else◌, ◌==◌,
}
use pong_pp.Signaling.State.{Server, mem, expired, send}
use pong_pp.Signaling.Text.{trim_end, split_verb, parse_code}
use pong_pp.Signaling.Verb
use pong_pp.Signaling.Rooms.{find_room, join_room, enter_as_guest, new_room, notify}
use pong_pp.Signaling.Player.{
  dispatch, on_message, handle_create, handle_join, answer_join, tell_host, handle_relay, peer_of,
}
use pong_pp.Signaling.Broadcast.{notify_lem}
use pong_pp.Signaling.Session.{opened}
use pong_pp.Signaling.Housed.{IsHoused, opened-IsHoused, joined-IsHoused}

pub send-IsHoused : (p : ℕ) (msg : List ℕ) (s : Server) → IsHoused s → IsHoused (send p msg s)
unfolding IsHoused send
send-IsHoused p msg s h = h

pub notify-IsHoused : (s : Server) → IsHoused s → IsHoused (notify s)
unfolding IsHoused
notify-IsHoused s h = rw (notify_lem s) h

handle_create-IsHoused :
    (p : ℕ) (s : Server) → IsHoused s → mem p s.players ≡ true → IsHoused (handle_create p s)
unfolding handle_create new_room
handle_create-IsHoused p s h living =
    send-IsHoused p _ (notify (opened p s))
      (notify-IsHoused (opened p s) (opened-IsHoused p s h living))

tell_host-IsHoused : (w : Option ℕ) (s : Server) → IsHoused s → IsHoused (tell_host w s)
unfolding tell_host
tell_host-IsHoused none s h = h
tell_host-IsHoused (some host) s h = send-IsHoused host _ s h

answer_join-IsHoused : (p : ℕ) (r : Option ℕ × Server) → IsHoused r.1 → IsHoused (answer_join p r)
unfolding answer_join
answer_join-IsHoused p (none, s) h = send-IsHoused p _ s h
answer_join-IsHoused p (some a, s) h = send-IsHoused p _ _ (tell_host-IsHoused _ s h)

join_room-IsHoused :
    (code p : ℕ) (s : Server)
    → IsHoused s
    → mem p s.players ≡ true
    → IsHoused (join_room code p s).1
unfolding join_room IsHoused
join_room-IsHoused code p s h living = go (find_room code s.rooms) refl
  where
    go : (w : Option ℕ) → find_room code s.rooms ≡ w → IsHoused (join_room code p s).1
    go none e = rw (join_room, e) h
    go (some a) e = elim (Bool-cases (expired s (s.heap a).guest)) [
      | inl free ↦
          rw (join_room, e, free)
            (notify-IsHoused (enter_as_guest p a s)
              (joined-IsHoused p a s h living (h.0 code a e) free))
      | inr full ↦ rw (join_room, e, full) h
    ]

handle_join-IsHoused :
    (p : ℕ) (body : List ℕ) (s : Server)
    → IsHoused s
    → mem p s.players ≡ true
    → IsHoused (handle_join p body s)
unfolding handle_join
handle_join-IsHoused p body s h living =
    answer_join-IsHoused p
      (if parse_code body == 0 then (none, s) else join_room (parse_code body) p s)
      (if_either (λ (r : Option ℕ × Server). IsHoused r.1) (parse_code body == 0) h
        (join_room-IsHoused (parse_code body) p s h living))

handle_relay-IsHoused :
    (p : ℕ) (body : List ℕ) (s : Server) → IsHoused s → IsHoused (handle_relay p body s)
unfolding handle_relay
handle_relay-IsHoused p body s h = go (peer_of p s (s.room_of p)) refl
  where
    go : (w : Option ℕ) → peer_of p s (s.room_of p) ≡ w → IsHoused (handle_relay p body s)
    go none e = rw (handle_relay, e) (send-IsHoused p _ s h)
    go (some q) e = rw (handle_relay, e) (send-IsHoused q _ s h)

pub on_message-IsHoused :
    (p : ℕ) (msg : List ℕ) (s : Server)
    → IsHoused s
    → mem p s.players ≡ true
    → IsHoused (on_message p msg s)
unfolding on_message dispatch
on_message-IsHoused p msg s h living =
    let (v, body) = split_verb (trim_end msg) in
    if_either IsHoused (bytes_eq v Verb.list) (send-IsHoused p _ s h) (
      if_either IsHoused (bytes_eq v Verb.create) (handle_create-IsHoused p s h living) (
        if_either IsHoused (bytes_eq v Verb.join) (handle_join-IsHoused p body s h living) (
          if_either IsHoused (bytes_eq v Verb.relay) (handle_relay-IsHoused p body s h)
            (send-IsHoused p _ s h))))
