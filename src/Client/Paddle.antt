-- ===== src/Client/Paddle.antt =====
-- src/client/main.cpp: the local paddle, moved by the player's keys.
use pong_pp.Common.{if◌then◌else◌}
use pong_pp.Common.Int.{ℤ}
use pong_pp.Client.Float.{Float}
use pong_pp.Client.Field.{
  canvas_h, paddle_h, paddle_speed_y, paddle_speed_x, left_x_min, left_x_max, right_x_min,
  right_x_max,
}
use pong_pp.Client.Game.{Game, is_int, clampf}

module _ {F : Type 0} ⦃float : Float F⦄ where
  open float use {lt, add, sub, mul, div, neg, num, tenths, of_int, to_int}

  -- A paddle's y and x after an input of -1, 0 or 1.
  unfoldable pub moved_y : F → ℤ → F
  unfolding clampf
  moved_y y dy = clampf (add y (mul (of_int dy) paddle_speed_y)) (num 0) (sub canvas_h paddle_h)

  unfoldable pub moved_x : F → ℤ → F → F → F
  unfolding clampf
  moved_x x dx min_x max_x = clampf (add x (mul (of_int dx) paddle_speed_x)) min_x max_x

  -- `dx` and `dy` are what `paddle_input_x` and `paddle_input_y` return; the pointers into the state
  -- that the role chooses are its two branches.
  unfoldable pub move_local_paddle : ℤ → ℤ → Game F → Game F
  unfolding moved_x moved_y
  move_local_paddle dx dy g =
      if is_int 0 g.role
      then (record g {
        left_y = moved_y g.left_y dy;
        left_vx = sub (moved_x g.left_x dx left_x_min left_x_max) g.left_x;
        left_x = moved_x g.left_x dx left_x_min left_x_max;
      })
      else (record g {
        right_y = moved_y g.right_y dy;
        right_vx = sub (moved_x g.right_x dx right_x_min right_x_max) g.right_x;
        right_x = moved_x g.right_x dx right_x_min right_x_max;
      })
