-- ===== src/Client/Game.antt =====
-- src/client/main.cpp: the state of the game and how it starts. The static variables are a record; a
-- function that writes them returns the new record.
use pong_pp.Common.{ℕ, zero, suc, ◌+◌, ◌%◌, Bool, true, false, ◌==◌, if◌then◌else◌}
use pong_pp.Common.Int.{ℤ, pos, negsuc}
use pong_pp.Client.Float.{Float}
use pong_pp.Client.Field.{
  canvas_h, half_w, ball_size, paddle_h, left_home_x, right_home_x, ball_speed_x, ball_speed_y,
}

pub record Game (F : Type 0) : Type 0 where
  pub in_game : Bool
  pub role : ℤ
  pub serve_seed : ℕ
  pub ball_x : F
  pub ball_y : F
  pub ball_vx : F
  pub ball_vy : F
  pub left_x : F
  pub left_y : F
  pub right_x : F
  pub right_y : F
  pub left_vx : F
  pub right_vx : F
  pub left_score : ℤ
  pub right_score : ℤ

-- n == k, and n++
abbrev pub is_int : ℕ → ℤ → Bool
is_int k (pos n) = n == k
is_int k (negsuc n) = false

abbrev pub increment : ℤ → ℤ
increment (pos n) = pos (suc n)
increment (negsuc zero) = pos 0
increment (negsuc (suc n)) = negsuc n

module _ {F : Type 0} ⦃float : Float F⦄ where
  open float use {lt, add, sub, mul, div, neg, num, tenths, of_int, to_int}

  unfoldable pub clampf : F → F → F → F
  clampf v lo hi = if lt v lo then lo else if lt hi v then hi else v

  unfoldable pub reset_ball : ℤ → Game F → Game F
  reset_ball direction g = record g {
    ball_x = sub half_w (div ball_size (num 2));
    ball_y = sub (div canvas_h (num 2)) (div ball_size (num 2));
    ball_vx = mul (of_int direction) ball_speed_x;
    ball_vy = if g.serve_seed % 2 == 1 then ball_speed_y else neg ball_speed_y;
    serve_seed = g.serve_seed + 1;
  }

  -- The paddles at home, no speed and no score: what `init` and `start_game` have in common.
  unfoldable pub home : Game F → Game F
  home g = record g {
    left_x = left_home_x;
    right_x = right_home_x;
    left_y = div (sub canvas_h paddle_h) (num 2);
    right_y = div (sub canvas_h paddle_h) (num 2);
    left_vx = num 0;
    right_vx = num 0;
    left_score = pos 0;
    right_score = pos 0;
  }

  unfoldable pub init : Game F → Game F
  unfolding home reset_ball
  init g = reset_ball (pos 1) (home (record g { in_game = false; role = pos 0; serve_seed = 0 }))

  unfoldable pub start_game : ℤ → Game F → Game F
  unfolding home reset_ball
  start_game r g =
      record (reset_ball (if is_int 0 r then pos 1 else negsuc 0) (home (record g { role = r }))) {
        in_game = true;
      }

  unfoldable pub stop_game : Game F → Game F
  stop_game g = record g { in_game = false }
