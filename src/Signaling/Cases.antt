-- ===== src/Signaling/Cases.antt =====
-- What a message of a player can come to: the server with the player in a new room, in the guest's
-- place of one, or as it was, and what was written.
use pong_pp.Common.{
  ℕ, ◌≡◌, refl, true, inl, inr, Bool-cases, Option, none, some, List, bytes_eq, ◌==◌,
}
use pong_pp.Signaling.State.{Server, expired, send}
use pong_pp.Signaling.Text.{trim_end, split_verb, parse_code}
use pong_pp.Signaling.Verb
use pong_pp.Signaling.Rooms.{find_room, join_room, enter_as_guest, new_room, notify}
use pong_pp.Signaling.Player.{
  dispatch, on_message, handle_create, handle_join, answer_join, tell_host, handle_relay, peer_of,
}
use pong_pp.Signaling.Session.{opened}

module _ (P : Server → Type 0)
    (sends : (q : ℕ) (msg : List ℕ) (s : Server) → P s → P (send q msg s))
    (notifies : (s : Server) → P s → P (notify s)) where
  create_case : (p : ℕ) (s : Server) → P (opened p s) → P (handle_create p s)
  unfolding handle_create new_room
  create_case p s h = sends p _ (notify (opened p s)) (notifies (opened p s) h)

  told : (w : Option ℕ) (s : Server) → P s → P (tell_host w s)
  unfolding tell_host
  told none s h = h
  told (some host) s h = sends host _ s h

  answered : (p : ℕ) (r : Option ℕ × Server) → P r.1 → P (answer_join p r)
  unfolding answer_join
  answered p (none, s) h = sends p _ s h
  answered p (some a, s) h = sends p _ _ (told _ s h)

  join_case :
      (p : ℕ) (body : List ℕ) (s : Server)
      → P s
      → ((c a : ℕ)
          → find_room c s.rooms ≡ some a
          → expired s (s.heap a).guest ≡ true
          → P (enter_as_guest p a s))
      → P (handle_join p body s)
  unfolding handle_join join_room
  join_case p body s h entered = elim (Bool-cases (parse_code body == 0)) [
    | inl bad_code ↦ rw (handle_join, bad_code) (answered p (none, s) h)
    | inr code ↦
        rw (handle_join, code)
          (answered p (join_room (parse_code body) p s)
            (go (find_room (parse_code body) s.rooms) refl))
  ]
    where
      go :
          (w : Option ℕ)
          → find_room (parse_code body) s.rooms ≡ w
          → P (join_room (parse_code body) p s).1
      go none e = rw (join_room, e) h
      go (some a) e = elim (Bool-cases (expired s (s.heap a).guest)) [
        | inl free ↦
            rw (join_room, e, free)
              (notifies (enter_as_guest p a s) (entered (parse_code body) a e free))
        | inr full ↦ rw (join_room, e, full) h
      ]

  relay_case : (p : ℕ) (body : List ℕ) (s : Server) → P s → P (handle_relay p body s)
  unfolding handle_relay
  relay_case p body s h = go (peer_of p s (s.room_of p)) refl
    where
      go : (w : Option ℕ) → peer_of p s (s.room_of p) ≡ w → P (handle_relay p body s)
      go none e = rw (handle_relay, e) (sends p _ s h)
      go (some q) e = rw (handle_relay, e) (sends q _ s h)

  pub message_cases :
      (p : ℕ) (msg : List ℕ) (s : Server)
      → P s
      → (bytes_eq (split_verb (trim_end msg)).0 Verb.create ≡ true → P (opened p s))
      → (bytes_eq (split_verb (trim_end msg)).0 Verb.join ≡ true
          → (c a : ℕ) → find_room c s.rooms ≡ some a
          → expired s (s.heap a).guest ≡ true
          → P (enter_as_guest p a s))
      → P (on_message p msg s)
  unfolding on_message dispatch
  message_cases p msg s h = go (split_verb (trim_end msg)).0 (split_verb (trim_end msg)).1
    where
      go :
          (v body : List ℕ)
          → (bytes_eq v Verb.create ≡ true → P (opened p s))
          → (bytes_eq v Verb.join ≡ true
              → (c a : ℕ) → find_room c s.rooms ≡ some a
              → expired s (s.heap a).guest ≡ true
              → P (enter_as_guest p a s))
          → P (dispatch p (v, body) s)
      go v body created entered = elim (Bool-cases (bytes_eq v Verb.list)) [
        | inl e ↦ rw (dispatch, e) (sends p _ s h)
        | inr not_list ↦ elim (Bool-cases (bytes_eq v Verb.create)) [
          | inl e ↦ rw (dispatch, not_list, e) (create_case p s (created e))
          | inr not_create ↦ elim (Bool-cases (bytes_eq v Verb.join)) [
            | inl e ↦ rw (dispatch, not_list, not_create, e) (join_case p body s h (entered e))
            | inr not_join ↦ elim (Bool-cases (bytes_eq v Verb.relay)) [
              | inl e ↦ rw (dispatch, not_list, not_create, not_join, e) (relay_case p body s h)
              | inr not_relay ↦
                  rw (dispatch, not_list, not_create, not_join, not_relay) (sends p _ s h)
            ]
          ]
        ]
      ]
