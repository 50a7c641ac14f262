-- ===== src/Client/Duel.antt =====
-- The two games of a match, src/client/main.cpp in two browsers, and the data channel between them
-- as web/src/rtc.ts opens it: ordered, and nothing is lost. What a game sends waits in a queue until
-- the other page gets it and web/src/loader.ts writes it into `msg_buf`.
-- The texts are ASCII, which the conversions from and to UTF-8 on the way leave as they are.
pub mod Messages
pub mod Flight
pub mod Frames
pub mod Linked
pub mod Serves
pub mod Sound
pub mod Drain
pub mod Settled
mod Tests
use pong_pp.Common.{
  ℕ, zero, suc, ◌+◌, ◌-◌, Bool, true, false, Option, none, some, List, [], ◌∷◌, ◌++◌, length, take,
  leb, if◌then◌else◌,
}
use pong_pp.Common.Int.{ℤ, pos, negsuc}
use pong_pp.Client.Float.{Float}
use pong_pp.Client.Game.{Game, start_game}
use pong_pp.Client.Peer.{on_peer_message}
use pong_pp.Client.Tick.{tick}
use pong_pp.Client.Screen.{Draw}

-- sizeof(send_buf), and what `get_msg_buf_size` returns
abbrev pub send_buf_size : ℕ
send_buf_size = 128

abbrev pub get_msg_buf_size : ℕ
get_msg_buf_size = 256

-- What `paddle_input_x` and `paddle_input_y` return: -1, 0 or 1.
pub data Direction : Type 0 where
  back still forth : Direction

abbrev pub input_of : Direction → ℤ
input_of back = negsuc 0
input_of still = pos 0
input_of forth = pos 1

-- `writeMsg`, which cuts a message that is too long.
unfoldable pub write_msg : List ℕ → List ℕ
write_msg text = take (get_msg_buf_size - 1) text

-- `peer_send`, and `send` of rtc.ts: what has been sent and not yet arrived, with the text behind it
-- if the channel is open; `none` if the text did not fit into `send_buf`.
unfoldable pub peer_send : Bool → Option (List ℕ) → List (List ℕ) → Option (List (List ℕ))
peer_send is_open none queue = some queue
peer_send is_open (some text) queue =
    if leb (length text) send_buf_size
    then some (if is_open then queue ++ text ∷ [] else queue)
    else none

-- Both games, whether the channel is open as either page sees it, and what is on its way.
pub record Duel (F : Type 0) : Type 0 where
  pub host : Game F
  pub guest : Game F
  pub host_open : Bool
  pub guest_open : Bool
  pub to_guest : List (List ℕ)
  pub to_host : List (List ℕ)

-- What can happen next: a page learns that the channel is open, a page draws a frame with its player's keys, or a message
-- arrives.
pub data Move : Type 0 where
  open_host open_guest : Move
  host_frame guest_frame : Direction → Direction → Move
  at_guest at_host : Move

module _ {F : Type 0} ⦃float : Float F⦄ where
  abbrev pub host_sent : Duel F → Game F → Option (List (List ℕ)) → Option (Duel F)
  host_sent d g none = none
  host_sent d g (some queue) = some (record d { host = g; to_guest = queue })

  abbrev pub guest_sent : Duel F → Game F → Option (List (List ℕ)) → Option (Duel F)
  guest_sent d g none = none
  guest_sent d g (some queue) = some (record d { guest = g; to_host = queue })

  -- What comes of a frame; `none` where the source's behaviour is undefined.
  abbrev pub host_ticked :
      Duel F → Game F × Option (List ℕ) × Option (List (Draw F)) → Option (Duel F)
  host_ticked d (g, sent, none) = none
  host_ticked d (g, sent, some drawn) = host_sent d g (peer_send d.host_open sent d.to_guest)

  abbrev pub guest_ticked :
      Duel F → Game F × Option (List ℕ) × Option (List (Draw F)) → Option (Duel F)
  guest_ticked d (g, sent, none) = none
  guest_ticked d (g, sent, some drawn) = guest_sent d g (peer_send d.guest_open sent d.to_host)

  abbrev pub guest_took : Duel F → List (List ℕ) → Option (Game F) → Option (Duel F)
  guest_took d queue none = none
  guest_took d queue (some g) = some (record d { guest = g; to_guest = queue })

  abbrev pub host_took : Duel F → List (List ℕ) → Option (Game F) → Option (Duel F)
  host_took d queue none = none
  host_took d queue (some g) = some (record d { host = g; to_host = queue })

  -- The oldest message, if there is one.
  abbrev pub guest_gets : Duel F → List (List ℕ) → Option (Duel F)
  guest_gets d [] = some d
  guest_gets d (text ∷ queue) = guest_took d queue (on_peer_message (write_msg text) d.guest)

  abbrev pub host_gets : Duel F → List (List ℕ) → Option (Duel F)
  host_gets d [] = some d
  host_gets d (text ∷ queue) = host_took d queue (on_peer_message (write_msg text) d.host)

  unfoldable pub move : Move → Duel F → Option (Duel F)
  move open_host d = some (record d { host_open = true })
  move open_guest d = some (record d { guest_open = true })
  move (host_frame dx dy) d = host_ticked d (tick (input_of dx) (input_of dy) d.host)
  move (guest_frame dx dy) d = guest_ticked d (tick (input_of dx) (input_of dy) d.guest)
  move at_guest d = guest_gets d d.to_guest
  move at_host d = host_gets d d.to_host

  unfoldable pub play : List Move → Option (Duel F) → Option (Duel F)
  play [] d = d
  play (m ∷ moves) none = none
  play (m ∷ moves) (some d) = play moves (move m d)

  -- READY has reached both pages, whatever games they had before: `start_game` with the two roles.
  abbrev pub kickoff : Game F → Game F → Duel F
  kickoff h g = record {
    host = start_game (pos 0) h;
    guest = start_game (pos 1) g;
    host_open = false;
    guest_open = false;
    to_guest = [];
    to_host = [];
  }

-- The frames of the host.
unfoldable pub host_frames : List Move → ℕ
host_frames [] = 0
host_frames (host_frame dx dy ∷ moves) = suc (host_frames moves)
host_frames (m ∷ moves) = host_frames moves
