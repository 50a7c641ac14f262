-- ===== src/Signaling/Meet.antt =====
-- src/server/signaling/player.cpp and rooms.cpp: two players that meet by a room's code.
use pong_pp.Common.{
  ℕ, ◌^◌, ◌<◌, ◌≡◌, refl, ◌∙◌, ap, sym, subst, true, inl, inr, none, some, ◌++◌, codes, ◌≢◌,
}
use pong_pp.Common.Decimal.{to_string}
use pong_pp.Signaling.State.{Server, mem, send, expired}
use pong_pp.Signaling.Verb
use pong_pp.Signaling.Rooms.{find_room, make_room, enter_as_host, enter_as_guest}
use pong_pp.Signaling.Player.{on_message}
use pong_pp.Signaling.Broadcast.{lobby_news}
use pong_pp.Signaling.Relay.{Occupants, same, differ}
use pong_pp.Signaling.Session.{opened, on_message-create_lem, guest_told, find_room-emplace}

-- The server that has answered a CREATE of `p`.
abbrev pub after_create : ℕ → Server → Server
after_create p s =
    send p (Verb.created ++ codes " " ++ to_string s.next_code)
      (record (opened p s) { sent = s.sent ++ lobby_news (opened p s) })

-- The server that has then answered a JOIN of `q`.
abbrev after_join : ℕ → ℕ → ℕ → Server → Server
after_join p q a s = send q (Verb.ready ++ codes " guest") (
    send p (Verb.ready ++ codes " host")
      (record (enter_as_guest q a s) { sent = s.sent ++ lobby_news (enter_as_guest q a s) }))

pub created_room :
    (s : Server) (p : ℕ)
    → find_room s.next_code s.rooms ≡ none
    → find_room s.next_code (after_create p s).rooms ≡ some s.next_address
unfolding enter_as_host make_room send
created_room s p fresh = find_room-emplace s.next_code s.next_address s.rooms fresh

created_host : (s : Server) (p : ℕ) → ((after_create p s).heap s.next_address).host ≡ some p
unfolding enter_as_host make_room send
created_host s p = rw (same s.next_address) refl

created_guest :
    (s : Server) (p : ℕ)
    → expired (after_create p s) ((after_create p s).heap s.next_address).guest ≡ true
unfolding enter_as_host make_room send
created_guest s p = rw (same s.next_address) refl

kept_players : (s : Server) (p : ℕ) → (after_create p s).players ≡ s.players
unfolding enter_as_host make_room send
kept_players s p = refl

both_in :
    (s : Server) (p q : ℕ)
    → mem p s.players ≡ true
    → mem q s.players ≡ true
    → p ≢ q
    → Occupants (after_join p q s.next_address (after_create p s)) s.next_address p q
      × Occupants (after_join p q s.next_address (after_create p s)) s.next_address q p
unfolding enter_as_host enter_as_guest make_room send Occupants
both_in s p q host guest other = (
  (
    rw (differ q p (λ e. other (sym e)), same p) refl,
    guest,
    other,
    inl (rw (same s.next_address) refl, rw (same s.next_address) refl),
  ),
  (
    rw (same q) refl,
    host,
    (λ e. other (sym e)),
    inr (rw (same s.next_address) refl, rw (same s.next_address) refl),
  ),
)

-- Two different registered players meet: one sends CREATE while the next code is unused, not 0 and
-- below 2 ^ 64, the other sends JOIN with that code. Then both are in the new room, each with the
-- other, who lives, in its other place.
pub on_message-meet :
    (s : Server) (p q : ℕ)
    → mem p s.players ≡ true
    → mem q s.players ≡ true
    → p ≢ q
    → 0 < s.next_code
    → s.next_code < 2 ^ 64
    → find_room s.next_code s.rooms ≡ none
    → let s' =
        on_message q
          (Verb.join ++ codes " " ++ to_string s.next_code)
          (on_message p Verb.create s) in
      Occupants s' s.next_address p q × Occupants s' s.next_address q p
on_message-meet s p q host guest other pos small fresh =
    subst (λ t. Occupants t s.next_address p q × Occupants t s.next_address q p)
      (sym (
        ap (on_message q (Verb.join ++ codes " " ++ to_string s.next_code))
          (on_message-create_lem p s)
        ∙ guest_told (after_create p s) s.next_address q p s.next_code pos small
            (created_room s p fresh) (created_guest s p) (created_host s p)
            (ap (mem p) (kept_players s p) ∙ host) (λ e. other (sym e))))
      (both_in s p q host guest other)
