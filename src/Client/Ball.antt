-- ===== src/Client/Ball.antt =====
-- src/client/main.cpp: the ball, the walls, the paddles it meets and the goals.
use pong_pp.Common.{Bool, not, ◌||◌, if◌then◌else◌}
use pong_pp.Common.Int.{pos, negsuc}
use pong_pp.Client.Float.{Float}
use pong_pp.Client.Field.{
  canvas_w, canvas_h, ball_size, paddle_w, paddle_h, ball_speed_y, max_ball_vx, paddle_boost,
}
use pong_pp.Client.Game.{Game, increment, reset_ball}

module _ {F : Type 0} ⦃float : Float F⦄ where
  open float use {lt, add, sub, mul, div, neg, num, tenths, of_int, to_int}

  -- Two one-sided tests, one after the other.
  unfoldable pub limit : F → F → F → F
  limit lo hi v = let v' = if lt hi v then hi else v in if lt v' lo then lo else v'

  -- The spin from where on the paddle the ball hit.
  unfoldable pub spin : F → F → F
  spin ball_y paddle_y =
      let ball_cy = add ball_y (div ball_size (num 2)) in
      let paddle_cy = add paddle_y (div paddle_h (num 2)) in
      let offset = div (sub ball_cy paddle_cy) (div paddle_h (num 2)) in
      let offset' = if lt offset (neg (num 1)) then neg (num 1) else offset in
      let offset'' = if lt (num 1) offset' then num 1 else offset' in
      mul (mul offset'' ball_speed_y) (tenths 15)

  unfoldable pub misses : F → F → Game F → Bool
  misses paddle_x paddle_y g =
      lt (add g.ball_x ball_size) paddle_x
      || lt (add paddle_x paddle_w) g.ball_x
      || lt (add g.ball_y ball_size) paddle_y
      || lt (add paddle_y paddle_h) g.ball_y

  unfoldable pub try_paddle_collide : F → F → F → Bool → Game F → Game F
  unfolding misses limit spin
  try_paddle_collide paddle_x paddle_y paddle_vx ball_going_into_paddle g =
      if misses paddle_x paddle_y g || not ball_going_into_paddle then g else (record g {
        ball_vx =
            limit (neg max_ball_vx) max_ball_vx (add (neg g.ball_vx) (mul paddle_vx paddle_boost));
        ball_vy = spin g.ball_y paddle_y;
      })

  -- The ball moves, and the walls turn it back.
  unfoldable pub move_ball : Game F → Game F
  move_ball g = record g { ball_x = add g.ball_x g.ball_vx; ball_y = add g.ball_y g.ball_vy }

  unfoldable pub top_wall : Game F → Game F
  top_wall g =
      if lt g.ball_y (num 0) then (record g { ball_y = num 0; ball_vy = neg g.ball_vy }) else g

  unfoldable pub bottom_wall : Game F → Game F
  bottom_wall g =
      if lt (sub canvas_h ball_size) g.ball_y
      then (record g { ball_y = sub canvas_h ball_size; ball_vy = neg g.ball_vy })
      else g

  unfoldable pub left_paddle : Game F → Game F
  left_paddle g = try_paddle_collide g.left_x g.left_y g.left_vx (lt g.ball_vx (num 0)) g

  unfoldable pub right_paddle : Game F → Game F
  right_paddle g = try_paddle_collide g.right_x g.right_y g.right_vx (lt (num 0) g.ball_vx) g

  unfoldable pub score : Game F → Game F
  unfolding reset_ball
  score g =
      if lt (add g.ball_x ball_size) (num 0)
      then reset_ball (negsuc 0) (record g { right_score = increment g.right_score })
      else if lt canvas_w g.ball_x
      then reset_ball (pos 1) (record g { left_score = increment g.left_score })
      else g

  unfoldable pub simulate_ball : Game F → Game F
  simulate_ball g = score (right_paddle (left_paddle (bottom_wall (top_wall (move_ball g)))))
