-- ===== src/Client/Field.antt =====
-- src/client/main.cpp: the measures of the field, the ball and the paddles.
use pong_pp.Client.Float.{Float}

module _ {F : Type 0} ⦃float : Float F⦄ where
  open float use {lt, add, sub, mul, div, neg, num, tenths, of_int, to_int}

  abbrev pub canvas_w : F
  canvas_w = num 800

  abbrev pub canvas_h : F
  canvas_h = num 600

  abbrev pub half_w : F
  half_w = div canvas_w (num 2)

  abbrev pub ball_size : F
  ball_size = num 14

  abbrev pub paddle_w : F
  paddle_w = num 12

  abbrev pub paddle_h : F
  paddle_h = num 90

  abbrev pub paddle_inset : F
  paddle_inset = num 24

  abbrev pub left_home_x : F
  left_home_x = paddle_inset

  abbrev pub right_home_x : F
  right_home_x = sub (sub canvas_w paddle_inset) paddle_w

  abbrev pub paddle_speed_y : F
  paddle_speed_y = num 6

  abbrev pub paddle_speed_x : F
  paddle_speed_x = num 4

  abbrev pub left_x_min : F
  left_x_min = num 0

  abbrev pub left_x_max : F
  left_x_max = sub half_w paddle_w

  abbrev pub right_x_min : F
  right_x_min = half_w

  abbrev pub right_x_max : F
  right_x_max = sub canvas_w paddle_w

  abbrev pub ball_speed_x : F
  ball_speed_x = num 5

  abbrev pub ball_speed_y : F
  ball_speed_y = num 3

  abbrev pub max_ball_vx : F
  max_ball_vx = num 14

  abbrev pub paddle_boost : F
  paddle_boost = tenths 6
