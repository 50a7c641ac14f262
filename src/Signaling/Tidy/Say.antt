-- ===== src/Signaling/Tidy/Say.antt =====
-- `OnMessage` keeps the table, the rooms and the players in agreement, if players in a room neither
-- open nor join one.
use pong_pp.Common.{ℕ, ◌+◌, ◌^◌, ◌<◌, ◌≡◌, true, ◌⊎◌, inl, inr, none, List, bytes_eq}
use pong_pp.Signaling.State.{Server, mem, send}
use pong_pp.Signaling.Text.{trim_end, split_verb}
use pong_pp.Signaling.Verb
use pong_pp.Signaling.Rooms.{notify}
use pong_pp.Signaling.Player.{on_message}
use pong_pp.Signaling.Broadcast.{notify_lem}
use pong_pp.Signaling.Cases.{message_cases}
use pong_pp.Signaling.Tidy.{Waiting, IsListed, IsInside, IsTidy}
use pong_pp.Signaling.Tidy.Enter.{opened-IsTidy}
use pong_pp.Signaling.Tidy.Join.{joined-IsTidy}

send-IsTidy : (p : ℕ) (msg : List ℕ) (s : Server) → IsTidy s → IsTidy (send p msg s)
unfolding IsTidy IsListed IsInside Waiting send
send-IsTidy p msg s tidy = tidy

notify-IsTidy : (s : Server) → IsTidy s → IsTidy (notify s)
unfolding IsTidy IsListed IsInside Waiting
notify-IsTidy s tidy = rw (notify_lem s) tidy

-- A player that opens or joins a room is in none.
unfoldable pub MayEnter : ℕ → List ℕ → Server → Type 0
MayEnter p v s =
    (bytes_eq v Verb.create ≡ true) ⊎ (bytes_eq v Verb.join ≡ true) → s.room_of p ≡ none

pub on_message-IsTidy :
    (p : ℕ) (msg : List ℕ) (s : Server)
    → IsTidy s
    → s.next_code + 1 < 2 ^ 64
    → mem p s.players ≡ true
    → MayEnter p (split_verb (trim_end msg)).0 s
    → IsTidy (on_message p msg s)
unfolding MayEnter
on_message-IsTidy p msg s tidy small alive may =
    message_cases IsTidy send-IsTidy notify-IsTidy p msg s tidy
      (λ e. opened-IsTidy s p tidy small alive (may (inl e)))
      (λ e c a found free. joined-IsTidy s p c a tidy found free alive (may (inr e)))
