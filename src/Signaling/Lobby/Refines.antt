-- ===== src/Signaling/Lobby/Refines.antt =====
-- Every step of the server is one of the lobby.
use pong_pp.Common.{
  ℕ, ◌≡◌, refl, ◌∙◌, ap, sym, subst, true, inl, inr, Bool-cases, Option, none, some, List, ◌∷◌,
  ◌==◌, ◌≢◌, arith, bytes_eq, if◌then◌else◌,
}
use pong_pp.Signaling.State.{Server, mem, expired, send}
use pong_pp.Signaling.Text.{trim_end, split_verb, parse_code}
use pong_pp.Signaling.Verb
use pong_pp.Signaling.Rooms.{
  find_room, join_room, enter_as_guest, enter_as_host, make_room, new_room, notify, register,
}
use pong_pp.Signaling.Player.{
  dispatch, on_message, handle_create, handle_join, answer_join, tell_host, handle_relay, peer_of,
}
use pong_pp.Signaling.Session.{opened}
use pong_pp.Signaling.Relay.{same, differ}
use pong_pp.Signaling.Tidy.{Waiting, IsListed, IsTidy}
use pong_pp.Signaling.Tidy.Say.{MayEnter}
use pong_pp.Signaling.Tidy.Enter.{next_code_unused}
use pong_pp.Signaling.Tidy.Reach.{IsNew, Step, Reachable, connects, says, leaves, Reachable-IsTidy}
use pong_pp.Signaling.Lobby.{
  Action, arrival, create, join, talk, departure, LobbyStep, arrives, opens, enters, is_refused,
  talks, code_of, lobby, IsTaken,
}
use pong_pp.Signaling.Lobby.Taken.{unused-IsTaken, zero-IsTaken, full-IsTaken}
use pong_pp.Signaling.Lobby.Rooms.{
  notify-lobby, room-listed, opened-Moved, joined-Moved, host_alone, same_code, cleanup-parts,
}

-- What a message asks for.
abbrev pub said : ℕ → List ℕ → List ℕ → Action
said p v body =
    if bytes_eq v Verb.list
    then talk p
    else if bytes_eq v Verb.create
    then create p
    else if bytes_eq v Verb.join
    then join p (parse_code body)
    else talk p

abbrev pub action_of : {s s' : Server} → Step s s' → Action
action_of (connects p new) = arrival p
action_of (says p msg alive small may) =
    said p (split_verb (trim_end msg)).0 (split_verb (trim_end msg)).1
action_of (leaves p alive) = departure p

-- The lobby after a step, where what was written does not matter.
To : Action → Server → Server → Type 0
To act s s' = LobbyStep act (lobby s) (lobby s')

send-To :
    (act : Action) (s : Server) (p : ℕ) (msg : List ℕ) (s' : Server)
    → To act s s'
    → To act s (send p msg s')
unfolding To send
send-To act s p msg s' step = step

notify-To : (act : Action) (s s' : Server) → To act s s' → To act s (notify s')
unfolding To
notify-To act s s' step = subst (LobbyStep act (lobby s)) (sym (notify-lobby s')) step

talks-To : (p q : ℕ) (msg : List ℕ) (s : Server) → To (talk p) s (send q msg s)
unfolding To send
talks-To p q msg s = talks p (λ x. refl) (λ x. refl)

handle_create-To :
    (p : ℕ) (s : Server)
    → IsTidy s
    → mem p s.players ≡ true
    → s.room_of p ≡ none
    → To (create p) s (handle_create p s)
unfolding handle_create new_room To enter_as_host make_room
handle_create-To p s tidy alive out = send-To (create p) s p _ (notify (opened p s)) (
    notify-To (create p) s (opened p s)
      (opens p s.next_code alive (ap (code_of s) out) unused (λ x. refl) (opened-Moved s p tidy)))
  where
    unused : (x : ℕ) → (lobby s).room x ≢ some s.next_code
    unused x e =
        let (a, there, found) = room-listed s x s.next_code tidy e in
        let missing = next_code_unused s tidy in absurd cc

tell_host-To :
    (act : Action) (s : Server) (w : Option ℕ) (s' : Server)
    → To act s s'
    → To act s (tell_host w s')
unfolding tell_host
tell_host-To act s none s' step = step
tell_host-To act s (some h) s' step = send-To act s h _ s' step

answer_join-To :
    (act : Action) (s : Server) (p : ℕ) (r : Option ℕ × Server)
    → To act s r.1
    → To act s (answer_join p r)
unfolding answer_join
answer_join-To act s p (none, s') step = send-To act s p _ s' step
answer_join-To act s p (some a, s') step = send-To act s p _ _ (tell_host-To act s _ s' step)

join_room-To :
    (code p : ℕ) (s : Server)
    → Reachable s
    → mem p s.players ≡ true
    → s.room_of p ≡ none
    → To (join p code) s (join_room code p s).1
unfolding join_room IsTidy IsListed Waiting To
join_room-To code p s reached alive out = go (find_room code s.rooms) refl
  where
    tidy : IsTidy s
    tidy = Reachable-IsTidy reached

    go : (w : Option ℕ) → find_room code s.rooms ≡ w → To (join p code) s (join_room code p s).1
    go none e =
        rw (join_room, e) (is_refused p code (unused-IsTaken s code tidy e) (λ x. refl) (λ x. refl))
    go (some a) e = elim (Bool-cases (expired s (s.heap a).guest)) [
      | inl free ↦
          let (bound, same, below, (h, host, lives, there), guest) = tidy.0 code a e in
          rw (join_room, e, free)
            (notify-To (join p code) s (enter_as_guest p a s) (
              unfold To enter_as_guest in
              enters p h code alive (ap (code_of s) out) (ap (code_of s) there ∙ ap some same)
                (host_alone s code a h tidy e free host) (λ x. refl)
                (joined-Moved s p code a tidy e)))
      | inr full ↦
          rw (join_room, e, full)
            (is_refused p code (full-IsTaken code a reached e full) (λ x. refl) (λ x. refl))
    ]

handle_join-To :
    (p : ℕ) (body : List ℕ) (s : Server)
    → Reachable s
    → mem p s.players ≡ true
    → s.room_of p ≡ none
    → To (join p (parse_code body)) s (handle_join p body s)
unfolding handle_join To
handle_join-To p body s reached alive out = elim (Bool-cases (parse_code body == 0)) [
  | inl bad_code ↦
      let zero_code : parse_code body ≡ 0 = ground arith in
      rw (handle_join, bad_code)
        (answer_join-To (join p (parse_code body)) s p (none, s)
          (is_refused p (parse_code body)
            (subst (IsTaken (lobby s)) (sym zero_code) (zero-IsTaken reached)) (λ x. refl)
            (λ x. refl)))
  | inr code ↦
      rw (handle_join, code)
        (answer_join-To (join p (parse_code body)) s p (join_room (parse_code body) p s)
          (join_room-To (parse_code body) p s reached alive out))
]

handle_relay-To : (p : ℕ) (body : List ℕ) (s : Server) → To (talk p) s (handle_relay p body s)
unfolding handle_relay
handle_relay-To p body s = go (peer_of p s (s.room_of p)) refl
  where
    go : (w : Option ℕ) → peer_of p s (s.room_of p) ≡ w → To (talk p) s (handle_relay p body s)
    go none e = rw (handle_relay, e) (talks-To p p _ s)
    go (some q) e = rw (handle_relay, e) (talks-To p q _ s)

dispatch-To :
    (p : ℕ) (v body : List ℕ) (s : Server)
    → Reachable s
    → mem p s.players ≡ true
    → MayEnter p v s
    → To (said p v body) s (dispatch p (v, body) s)
unfolding dispatch MayEnter
dispatch-To p v body s reached alive may = elim (Bool-cases (bytes_eq v Verb.list)) [
  | inl e ↦ rw (dispatch, e) (talks-To p p _ s)
  | inr not_list ↦ elim (Bool-cases (bytes_eq v Verb.create)) [
    | inl e ↦
        rw (dispatch, not_list, e)
          (handle_create-To p s (Reachable-IsTidy reached) alive (may (inl e)))
    | inr not_create ↦ elim (Bool-cases (bytes_eq v Verb.join)) [
      | inl e ↦
          rw (dispatch, not_list, not_create, e)
            (handle_join-To p body s reached alive (may (inr e)))
      | inr not_join ↦ elim (Bool-cases (bytes_eq v Verb.relay)) [
        | inl e ↦ rw (dispatch, not_list, not_create, not_join, e) (handle_relay-To p body s)
        | inr not_relay ↦
            rw (dispatch, not_list, not_create, not_join, not_relay) (talks-To p p _ s)
      ]
    ]
  ]
]

register-To : (p : ℕ) (s : Server) → IsNew p s → To (arrival p) s (register p s)
unfolding IsNew register To
register-To p s (absent, out, unnamed) =
    rw (register, absent)
      (arrives p absent (ap (code_of s) out) (rw (same p) refl)
        (λ x other. rw (differ p x other) refl)
        (λ x. same_code s (record s { players = p ∷ s.players }) x refl (λ a e. refl)))

-- In every state that is reached while players in a room neither open nor join one, and fewer than
-- 2 ^ 64 rooms are opened, each step of the server is the step of the lobby for what the player did:
-- who connects is in no room; CREATE puts the sender into a room that nobody is in; JOIN puts it
-- into the room of that code if one player is alone there, and changes nothing if there is no such
-- player; any other message changes nothing; and when a connection ends, all are put out of that
-- player's room. All others stay where they are.
pub Step-LobbyStep :
    {s s' : Server}
    → Reachable s
    → (step : Step s s') → LobbyStep (action_of step) (lobby s) (lobby s')
unfolding To on_message
Step-LobbyStep reached (connects p {s} new) = register-To p s new
Step-LobbyStep reached (says p msg {s} alive small may) =
    dispatch-To p (split_verb (trim_end msg)).0 (split_verb (trim_end msg)).1 s reached alive may
Step-LobbyStep reached (leaves p {s} alive) = cleanup-parts s p (Reachable-IsTidy reached) alive
