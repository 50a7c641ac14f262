-- ===== src/Client/Tick.antt =====
-- src/client/main.cpp: one frame.
use pong_pp.Common.{ℕ, not, Option, none, some, List, [], if◌then◌else◌}
use pong_pp.Common.Int.{ℤ}
use pong_pp.Client.Float.{Float}
use pong_pp.Client.Game.{Game, is_int}
use pong_pp.Client.Paddle.{move_local_paddle}
use pong_pp.Client.Ball.{simulate_ball}
use pong_pp.Client.Peer.{send_state, send_paddle}
use pong_pp.Client.Screen.{Draw, render}

module _ {F : Type 0} ⦃float : Float F⦄ where
  -- The end of the frame: what was sent, and what is drawn.
  abbrev pub finish_tick : List ℕ → Game F → Game F × Option (List ℕ) × Option (List (Draw F))
  finish_tick msg g = (g, some msg, render g)

  -- The new state, the message that is sent, if any, and what is drawn.
  unfoldable pub tick : ℤ → ℤ → Game F → Game F × Option (List ℕ) × Option (List (Draw F))
  tick dx dy g =
      let moved = move_local_paddle dx dy g in
      if not g.in_game
      then (g, none, some [])
      else if is_int 0 moved.role
      then finish_tick (send_state (simulate_ball moved)) (simulate_ball moved)
      else finish_tick (send_paddle moved) moved
