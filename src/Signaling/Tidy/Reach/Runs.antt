-- ===== src/Signaling/Tidy/Reach/Runs.antt =====
-- A short run of the server, and the theorems on reachable states at its end.
use pong_pp.Common.{ℕ, ◌≡◌, refl, ◌⊎◌, true, false, some, ◌++◌, codes, arith, ◌≢◌}
use pong_pp.Signaling.State.{Server, mem, send}
use pong_pp.Common.Find.{find, find_here}
use pong_pp.Signaling.Text.{
  trim_end, keep_front, is_newline, split_verb, parse_code, from_chars, take_digits, is_digit,
}
use pong_pp.Signaling.Verb
use pong_pp.Signaling.Rooms.{
  find_room, register, joinable_codes, emplace, new_room, notify, broadcast, enter_as_host,
  make_room, enter_as_guest, join_room,
}
use pong_pp.Signaling.Player.{
  on_message, dispatch, handle_create, handle_join, answer_join, tell_host, another,
}
use pong_pp.Signaling.Tidy.{IsTidy}
use pong_pp.Signaling.Tidy.Say.{MayEnter}
use pong_pp.Signaling.Tidy.Reach.{
  IsNew, Step, Reachable, start, next, connects, says, empty_server, Reachable-IsTidy,
  relay-same_room,
}
use pong_pp.Signaling.Lobby.{LobbyStep, lobby}
use pong_pp.Signaling.Lobby.Refines.{action_of, Step-LobbyStep}
use pong_pp.Signaling.Lobby.Open.{Lonely, joinable_codes-Lonely}

first : Server
first = register 1 empty_server

first-IsNew : IsNew 1 empty_server
unfolding IsNew
first-IsNew = (refl, refl, λ a. ((λ e. cc), (λ e. cc)))

both : Server
both = register 2 first

both-IsNew : IsNew 2 first
unfolding IsNew first register
both-IsNew = (refl, refl, λ a. ((λ e. cc), (λ e. cc)))

created : Server
created = on_message 1 Verb.create both

joined : Server
joined = on_message 2 (codes "JOIN 1") created

both_may : MayEnter 1 (split_verb (trim_end Verb.create)).0 both
unfolding MayEnter both first register
both_may e = refl

created_may : MayEnter 2 (split_verb (trim_end (codes "JOIN 1"))).0 created
unfolding MayEnter created both first register on_message dispatch trim_end keep_front is_newline
    split_verb find find_here handle_create new_room notify broadcast send enter_as_host make_room
created_may e = refl

created-Reachable : Reachable created
unfolding created both first register
created-Reachable =
    next (next (next start (connects 1 first-IsNew)) (connects 2 both-IsNew))
      (says 1 Verb.create refl (omega arith) both_may)

joins : Step created joined
unfolding joined created both first register on_message dispatch trim_end keep_front is_newline
    split_verb find find_here handle_create new_room notify broadcast send enter_as_host make_room
joins = says 2 (codes "JOIN 1") refl (omega arith) created_may

joined-Reachable : Reachable joined
joined-Reachable = next created-Reachable joins

Reachable-IsTidy_example : IsTidy joined
Reachable-IsTidy_example = Reachable-IsTidy joined-Reachable

joinable_codes-Lonely_example :
    ((mem 1 (joinable_codes created created.rooms) ≡ true) × Lonely (lobby created) 1)
    ⊎ ((mem 1 (joinable_codes created created.rooms) ≡ false) × (¬ Lonely (lobby created) 1))
joinable_codes-Lonely_example = joinable_codes-Lonely 1 created-Reachable

joined_inside : joined.room_of 1 ≡ some 0
unfolding joined created both first register on_message dispatch trim_end keep_front is_newline
    split_verb find find_here handle_create new_room notify broadcast send enter_as_host make_room
    handle_join answer_join tell_host another join_room enter_as_guest find_room emplace parse_code
    from_chars take_digits is_digit
joined_inside = refl

relay-same_room_example :
    (on_message 1 (Verb.relay ++ codes " " ++ codes "hello") joined
      ≡ send 1 (Verb.error ++ codes " not_in_room") joined)
    ⊎ ((q : ℕ) × (on_message 1 (Verb.relay ++ codes " " ++ codes "hello") joined
          ≡ send q (Verb.relay ++ codes " " ++ trim_end (codes "hello")) joined)
        × (1 ≢ q)
        × (mem q joined.players ≡ true)
        × (joined.room_of q ≡ some 0))
relay-same_room_example = relay-same_room 1 0 (codes "hello") joined-Reachable joined_inside

Step-LobbyStep_example : LobbyStep (action_of joins) (lobby created) (lobby joined)
Step-LobbyStep_example = Step-LobbyStep created-Reachable joins
