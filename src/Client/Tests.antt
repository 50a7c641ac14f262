-- ===== src/Client/Tests.antt =====
-- Games to a tenth of a pixel, and the theorems on the game at them.
use pong_pp.Common.{◌≤◌, ◌<◌, ◌≡◌, refl, ◌⊎◌, inl, true, none, some, List, [], ◌∷◌, codes, arith}
use pong_pp.Common.Int.{ℤ, pos, negsuc}
use pong_pp.Client.Wire.{
  message, signed, read_message, read_values, then_values, in_front, parse_int, with_sign,
  parse_digits, in_digits, skip_sep, int_to_str, low_digits, backwards,
}
use pong_pp.Client.Wire.Bounds.{ten_to}
use pong_pp.Client.Wire.RoundTrip.{FitsInt}
use pong_pp.Client.FixedPoint.{fixed_point, fixed_point-IsFloat}
use pong_pp.Client.Game.{Game, clampf, init, home, reset_ball, start_game}
use pong_pp.Client.Ball.{
  simulate_ball, left_paddle, right_paddle, bottom_wall, top_wall, move_ball, score,
  try_paddle_collide, misses,
}
use pong_pp.Client.Paddle.{move_local_paddle, moved_x, moved_y}
use pong_pp.Client.Tick.{tick}
use pong_pp.Client.Peer.{send_state, on_peer_message, with_values, take_paddle}
use pong_pp.Client.Screen.{Draw, render, dashes, drawing, score_text}
use pong_pp.Client.Screen.Buffer.{render_lem}
use pong_pp.Client.Limits.{Within}
use pong_pp.Client.Fair.{Event, start, frame, peer_message, steps, IsFair}
use pong_pp.Client.Fair.Steps.{steps-IsFair}
use pong_pp.Client.Overflow.{steps-overflow}
use pong_pp.Client.Goals.{Outcome, simulate_ball_lem}
use pong_pp.Client.Mirror.{on_peer_message-send_state}

-- The ball is about to leave the field on the right, above the right paddle.
abbrev host : Game ℤ
host = record {
  in_game = true;
  role = pos 0;
  serve_seed = 3;
  ball_x = pos 7985;
  ball_y = pos 1000;
  ball_vx = pos 50;
  ball_vy = negsuc 29;
  left_x = pos 240;
  left_y = pos 2550;
  right_x = pos 7640;
  right_y = pos 2550;
  left_vx = pos 0;
  right_vx = negsuc 39;
  left_score = pos 2;
  right_score = pos 1;
}

abbrev guest : Game ℤ
guest = record host { role = pos 1; right_x = pos 6123; left_score = pos 0; right_score = pos 0 }

simulate_ball_lem_example :
    Outcome host (simulate_ball host) × Within (pos 0) (pos 5860) (simulate_ball host).ball_y
simulate_ball_lem_example = simulate_ball_lem fixed_point-IsFloat host

on_peer_message-send_state_example :
    on_peer_message (send_state host) guest
    ≡ some (record guest {
      ball_x = pos 7980;
      ball_y = pos 1000;
      left_x = pos 240;
      left_y = pos 2550;
      left_score = pos 2;
      right_score = pos 1;
    })
unfolding FitsInt signed
on_peer_message-send_state_example = on_peer_message-send_state host guest (omega arith) refl

render_lem_example :
    (2 < ten_to 8 → 1 < ten_to 8 → (ds : List (Draw ℤ)) × (render host ≡ some ds))
    × ((ten_to 8 ≤ 2) ⊎ (ten_to 8 ≤ 1) → render host ≡ none)
render_lem_example = render_lem fixed_point-IsFloat host 2 1 refl refl

abbrev events : List Event
events = start (pos 0) ∷ peer_message (codes "P 500 -3") ∷ frame (pos 1) (negsuc 0) ∷ []

abbrev after_events : Game ℤ
after_events = record {
  in_game = true;
  role = pos 0;
  serve_seed = 2;
  ball_x = pos 3980;
  ball_y = pos 2960;
  ball_vx = pos 50;
  ball_vy = pos 30;
  left_x = pos 280;
  left_y = pos 2490;
  right_x = pos 5000;
  right_y = pos 0;
  left_vx = pos 40;
  right_vx = negsuc 2639;
  left_score = pos 0;
  right_score = pos 0;
}

played_events : steps events (some (init host)) ≡ some after_events
unfolding init start_game home reset_ball on_peer_message read_message read_values then_values
    in_front parse_int with_sign parse_digits in_digits skip_sep signed with_values take_paddle
    clampf tick move_local_paddle moved_x moved_y simulate_ball left_paddle right_paddle bottom_wall
    top_wall move_ball score try_paddle_collide misses render dashes drawing score_text int_to_str
    low_digits backwards
played_events = refl

steps-IsFair_example : IsFair after_events
steps-IsFair_example = steps-IsFair fixed_point-IsFloat events host after_events played_events

steps-overflow_example :
    steps
      (peer_message (
          message b'S' (pos 1 ∷ pos 2 ∷ pos 3 ∷ pos 4 ∷ pos 5 ∷ pos 6 ∷ pos 999999999 ∷ pos 0 ∷ []))
        ∷ frame (pos 0) (pos 1)
        ∷ [])
      (some guest)
    ≡ none
unfolding FitsInt
steps-overflow_example =
    steps-overflow guest (pos 1) (pos 2) (pos 3) (pos 4) (pos 5) (pos 6) (pos 0) (pos 1) 999999999 0
      (omega arith) refl refl (inl (omega arith))
