-- ===== src/Client/Fair.antt =====
-- src/client/main.cpp: the paddles stay where they may be and the ball does not run away, whatever
-- the keys and the peer do.
mod Ball
pub mod Steps
use pong_pp.Common.{
  ℕ, ◌*◌, ◌≤◌, ◌≡◌, refl, ◌∙◌, ap, sym, subst, Bool, true, false, not, ◌||◌, ◌&&◌, ◌⊎◌, inl, inr,
  Bool-cases, Option, none, some, List, [], ◌∷◌, ltb, arith, ◌==◌, if◌then◌else◌, get_or, length,
}
use pong_pp.Common.Int.{ℤ, pos, negsuc}
use pong_pp.Client.Wire.{read_message}
use pong_pp.Client.Float.{Float, IsFloat}
use pong_pp.Client.Field.{
  canvas_w, canvas_h, half_w, ball_size, paddle_w, paddle_h, left_home_x, right_home_x, left_x_min,
  left_x_max, right_x_min, right_x_max, max_ball_vx, ball_speed_x,
}
use pong_pp.Client.Game.{
  Game, is_int, clampf, reset_ball, home, init, start_game, stop_game, increment,
}
use pong_pp.Client.Ball.{
  limit, misses, try_paddle_collide, move_ball, top_wall, bottom_wall, left_paddle, right_paddle,
  score, simulate_ball,
}
use pong_pp.Client.Paddle.{moved_x, moved_y, move_local_paddle}
use pong_pp.Client.Peer.{take_paddle, take_state, with_values, on_peer_message}
use pong_pp.Client.Screen.{Draw}
use pong_pp.Client.Tick.{tick, finish_tick}
use pong_pp.Client.Limits.{
  Within, num-Within, num_not_lt, clampf-Within, limit-Within, half_w_num, left_x_max_num,
  right_x_max_num, lowest_y_num, right_home_x_num, home_y_num,
}

-- What the browser calls.
pub data Event : Type 0 where
  start : ℤ → Event
  stop : Event
  frame : ℤ → ℤ → Event
  peer_message : List ℕ → Event

module _ {F : Type 0} ⦃float : Float F⦄ where
  open float use {lt, add, sub, mul, div, neg, num, of_int}

  abbrev pub after_frame : Game F × Option (List ℕ) × Option (List (Draw F)) → Option (Game F)
  after_frame (g, sent, none) = none
  after_frame (g, sent, some drawn) = some g

  -- `none` where the source's behaviour is undefined.
  abbrev pub step : Event → Game F → Option (Game F)
  step (start r) g = some (start_game r g)
  step stop g = some (stop_game g)
  step (frame dx dy) g = after_frame (tick dx dy g)
  step (peer_message msg) g = on_peer_message msg g

  abbrev pub steps : List Event → Option (Game F) → Option (Game F)
  steps [] g = g
  steps (e ∷ events) none = none
  steps (e ∷ events) (some g) = steps events (step e g)

  -- The paddle's top left corner.
  unfoldable pub InField : F → F → F → F → Type 0
  unfolding Within
  InField min_x max_x x y = Within min_x max_x x × Within (num 0) (sub canvas_h paddle_h) y

  unfoldable pub IsFair : Game F → Type 0
  unfolding InField
  IsFair g =
      (is_int 0 g.role ≡ true → InField left_x_min left_x_max g.left_x g.left_y)
      × InField right_x_min right_x_max g.right_x g.right_y
      × Within (neg max_ball_vx) max_ball_vx g.ball_vx

  module _ (laws : IsFloat float) where
    open laws use {neg_lt, neg_lt_num, one_mul, minus_one_mul}

    -- The two serves.
    pub serve-Within :
        (d : ℤ)
        → (d ≡ pos 1) ⊎ (d ≡ negsuc 0)
        → Within (neg max_ball_vx) max_ball_vx (mul (of_int d) ball_speed_x)
    unfolding Within
    serve-Within d (inl e) =
        rw (e, one_mul (num 5))
          (
            neg_lt_num 5 14 (omega arith) (omega arith),
            num_not_lt laws 14 5 (omega arith) (omega arith),
          )
    serve-Within d (inr e) =
        rw (e, minus_one_mul (num 5))
          (
            neg_lt (num 5) (num 14) ∙ num_not_lt laws 14 5 (omega arith) (omega arith),
            neg_lt_num 14 5 (omega arith) (omega arith),
          )

    pub clampf_left : (v : F) → Within left_x_min left_x_max (clampf v left_x_min left_x_max)
    clampf_left v =
        subst (λ m. Within (num 0) m (clampf v (num 0) m)) (sym (left_x_max_num laws))
          (clampf-Within laws 0 388 v (omega arith) (omega arith))

    pub clampf_right : (v : F) → Within right_x_min right_x_max (clampf v right_x_min right_x_max)
    clampf_right v =
        subst (λ l. Within l right_x_max (clampf v l right_x_max)) (sym (half_w_num laws))
          (subst (λ m. Within (num 400) m (clampf v (num 400) m)) (sym (right_x_max_num laws))
            (clampf-Within laws 400 788 v (omega arith) (omega arith)))

    pub clampf_y :
        (v : F) → Within (num 0) (sub canvas_h paddle_h) (clampf v (num 0) (sub canvas_h paddle_h))
    clampf_y v =
        subst (λ m. Within (num 0) m (clampf v (num 0) m)) (sym (lowest_y_num laws))
          (clampf-Within laws 0 510 v (omega arith) (omega arith))

    pub home_left : InField left_x_min left_x_max left_home_x (div (sub canvas_h paddle_h) (num 2))
    unfolding InField
    home_left = (
      subst (λ m. Within (num 0) m (num 24)) (sym (left_x_max_num laws))
          (num-Within laws 0 388 24 (omega arith) (omega arith) (omega arith)),
      home_y,
    )
      where
        home_y : Within (num 0) (sub canvas_h paddle_h) (div (sub canvas_h paddle_h) (num 2))
        home_y =
            rw (home_y_num laws, lowest_y_num laws)
              (num-Within laws 0 510 255 (omega arith) (omega arith) (omega arith))

    pub home_right :
        InField right_x_min right_x_max right_home_x (div (sub canvas_h paddle_h) (num 2))
    unfolding InField
    home_right = (
      subst (λ l. Within l right_x_max right_home_x) (sym (half_w_num laws))
          (subst (λ m. Within (num 400) m right_home_x) (sym (right_x_max_num laws))
            (subst (λ x. Within (num 400) (num 788) x) (sym (right_home_x_num laws))
              (num-Within laws 400 788 764 (omega arith) (omega arith) (omega arith)))),
      home_left.1,
    )
