-- ===== src/Client/Goals.antt =====
-- src/client/main.cpp: where the ball is after a frame, and who scores.
use pong_pp.Common.{
  subst, if_either, ◌≡◌, refl, ◌∙◌, ap, sym, Bool, false, not, ◌||◌, ◌⊎◌, inl, inr, Bool-cases,
  arith,
}
use pong_pp.Client.Float.{Float, IsFloat}
use pong_pp.Client.Field.{canvas_w, canvas_h, ball_size}
use pong_pp.Client.Game.{Game, reset_ball, increment}
use pong_pp.Client.Ball.{
  misses, try_paddle_collide, move_ball, top_wall, bottom_wall, left_paddle, right_paddle, score,
  simulate_ball,
}
use pong_pp.Client.Limits.{Within, num-Within, num_not_lt, centre_x_num, centre_y_num}

module _ {F : Type 0} ⦃float : Float F⦄ where
  open float use {lt, add, sub, div, num, neg}

  -- The ball's height and the scores are those of `g`.
  unfoldable pub SameGoals : Game F → Game F → Type 0
  SameGoals g g' =
      (g'.ball_y ≡ g.ball_y) × (g'.left_score ≡ g.left_score) × (g'.right_score ≡ g.right_score)

  collide-SameGoals :
      (px py pvx : F) (going : Bool) (g : Game F)
      → SameGoals g (try_paddle_collide px py pvx going g)
  unfolding SameGoals try_paddle_collide
  collide-SameGoals px py pvx going g =
      if_either (SameGoals g) (misses px py g || not going) (refl, refl, refl) (refl, refl, refl)

  SameScores : Game F → Game F → Type 0
  SameScores g g' = (g'.left_score ≡ g.left_score) × (g'.right_score ≡ g.right_score)

  top_wall-SameScores : (g : Game F) → SameScores g (top_wall g)
  unfolding top_wall SameScores
  top_wall-SameScores g = if_either (SameScores g) (lt g.ball_y (num 0)) (refl, refl) (refl, refl)

  bottom_wall-SameScores : (g : Game F) → SameScores g (bottom_wall g)
  unfolding bottom_wall SameScores
  bottom_wall-SameScores g =
      if_either (SameScores g) (lt (sub canvas_h ball_size) g.ball_y) (refl, refl) (refl, refl)

  -- The ball after the walls turned it back, and after the paddles did.
  abbrev walled : Game F → Game F
  walled g = bottom_wall (top_wall (move_ball g))

  abbrev played : Game F → Game F
  played g = right_paddle (left_paddle (walled g))

  walled-SameScores : (g : Game F) → SameScores g (walled g)
  unfolding SameScores move_ball
  walled-SameScores g =
      let (l, r) = top_wall-SameScores (move_ball g) in
      let (l', r') = bottom_wall-SameScores (top_wall (move_ball g)) in (l' ∙ l, r' ∙ r)

  played-SameGoals : (g : Game F) → SameGoals (walled g) (played g)
  unfolding SameGoals left_paddle right_paddle
  played-SameGoals g =
      let (y, l, r) = collide-SameGoals _ _ _ _ (walled g) in
      let (y', l', r') = collide-SameGoals _ _ _ _ (left_paddle (walled g)) in
      (y' ∙ y, l' ∙ l, r' ∙ r)

  played-SameScores : (g : Game F) → SameScores g (played g)
  unfolding SameScores SameGoals
  played-SameScores g =
      let (y, l, r) = played-SameGoals g in let (l', r') = walled-SameScores g in (l ∙ l', r ∙ r')

  -- The three ways in which a frame can end.
  unfoldable pub Outcome : Game F → Game F → Type 0
  Outcome g g' =
      ((g'.left_score ≡ g.left_score)
        × (g'.right_score ≡ g.right_score)
        × (lt (add g'.ball_x ball_size) (num 0) ≡ false)
        × (lt canvas_w g'.ball_x ≡ false))
      ⊎ (((g'.left_score ≡ increment g.left_score)
            × (g'.right_score ≡ g.right_score)
            × (g'.ball_x ≡ num 393)
            × (g'.ball_y ≡ num 293)
            × (g'.ball_vx ≡ num 5))
          ⊎ ((g'.left_score ≡ g.left_score)
              × (g'.right_score ≡ increment g.right_score)
              × (g'.ball_x ≡ num 393)
              × (g'.ball_y ≡ num 293)
              × (g'.ball_vx ≡ neg (num 5))))

  module _ (laws : IsFloat float) where
    open laws use {num_sub, one_mul, minus_one_mul}

    lowest : sub canvas_h ball_size ≡ num 586
    lowest = num_sub 600 14 (omega arith) (omega arith)

    top_wall-not-above : (g : Game F) → lt (top_wall g).ball_y (num 0) ≡ false
    unfolding top_wall
    top_wall-not-above g = elim (Bool-cases (lt g.ball_y (num 0))) [
      | inl out ↦ rw out (num_not_lt laws 0 0 (omega arith) (omega arith))
      | inr inside ↦ rw inside inside
    ]

    bottom_wall-Within :
        (g : Game F) → lt g.ball_y (num 0) ≡ false → Within (num 0) (num 586) (bottom_wall g).ball_y
    unfolding bottom_wall Within
    bottom_wall-Within g above = elim (Bool-cases (lt (sub canvas_h ball_size) g.ball_y)) [
      | inl out ↦ rw out (
          subst (Within (num 0) (num 586)) (sym lowest)
            (num-Within laws 0 586 586 (omega arith) (omega arith) (omega arith)))
      | inr inside ↦ rw inside (above, ap (λ m. lt m g.ball_y) (sym lowest) ∙ inside)
    ]

    score_lem :
        (g h : Game F)
        → SameScores g h
        → Within (num 0) (num 586) h.ball_y
        → Outcome g (score h) × Within (num 0) (num 586) (score h).ball_y
    unfolding SameScores score reset_ball Outcome
    score_lem g h (l, r) y = elim (Bool-cases (lt (add h.ball_x ball_size) (num 0))) [
      | inl out ↦ rw out (
        inr (inr (l, ap increment r, centre_x_num laws, centre_y_num laws, minus_one_mul (num 5))),
        in_height,
      )
      | inr not_left ↦ elim (Bool-cases (lt canvas_w h.ball_x)) [
        | inl out ↦
            rw (not_left, out)
              (
                inr (
                    inl (ap increment l, r, centre_x_num laws, centre_y_num laws, one_mul (num 5))),
                in_height,
              )
        | inr not_right ↦ rw (not_left, not_right) (inl (l, r, not_left, not_right), y)
      ]
    ]
      where
        in_height : Within (num 0) (num 586) (sub (div canvas_h (num 2)) (div ball_size (num 2)))
        in_height =
            subst (Within (num 0) (num 586)) (sym (centre_y_num laws))
              (num-Within laws 0 586 293 (omega arith) (omega arith) (omega arith))

    -- On floats that obey the laws of `Client.Float`, a frame on the host ends in one of three
    -- ways: the scores stay and the ball is behind neither goal line; or exactly one score grows
    -- by one and the ball is back in the centre, served to the right if the left player scored and
    -- to the left if the right one did. In each the ball is neither above nor below the field.
    pub simulate_ball_lem :
        (g : Game F)
        → Outcome g (simulate_ball g) × Within (num 0) (num 586) (simulate_ball g).ball_y
    unfolding simulate_ball SameGoals
    simulate_ball_lem g = score_lem g (played g) (played-SameScores g) (
        subst (Within (num 0) (num 586)) (sym (played-SameGoals g).0)
          (bottom_wall-Within (top_wall (move_ball g)) (top_wall-not-above (move_ball g))))
