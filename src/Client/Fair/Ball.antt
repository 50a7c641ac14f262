-- ===== src/Client/Fair/Ball.antt =====
-- A frame's work on the ball: its speed stays limited on every branch, and the paddles and the role
-- are not touched.
use pong_pp.Common.{if_either, ◌≡◌, refl, ◌∙◌, Bool, not, ◌||◌, inl, inr, arith}
use pong_pp.Common.Int.{pos, negsuc}
use pong_pp.Client.Float.{Float, IsFloat}
use pong_pp.Client.Field.{canvas_w, canvas_h, ball_size, max_ball_vx}
use pong_pp.Client.Game.{Game, reset_ball}
use pong_pp.Client.Ball.{
  misses, try_paddle_collide, move_ball, top_wall, bottom_wall, left_paddle, right_paddle, score,
  simulate_ball,
}
use pong_pp.Client.Limits.{Within, limit-Within}
use pong_pp.Client.Fair.{serve-Within}

module _ {F : Type 0} ⦃float : Float F⦄ where
  open float use {lt, add, sub, num, neg}

  -- A change of the ball and the scores alone that keeps the ball's speed limited.
  unfoldable pub Keeps : Game F → Game F → Type 0
  Keeps g g' =
      (g'.role ≡ g.role)
      × (g'.left_x ≡ g.left_x)
      × (g'.left_y ≡ g.left_y)
      × (g'.right_x ≡ g.right_x)
      × (g'.right_y ≡ g.right_y)
      × (Within (neg max_ball_vx) max_ball_vx g.ball_vx
          → Within (neg max_ball_vx) max_ball_vx g'.ball_vx)

  Keeps-self : (g : Game F) → Keeps g g
  unfolding Keeps
  Keeps-self g = (refl, refl, refl, refl, refl, λ h. h)

  Keeps-trans : (a b c : Game F) → Keeps a b → Keeps b c → Keeps a c
  unfolding Keeps
  Keeps-trans a b c (r, lx, ly, rx, ry, v) (r', lx', ly', rx', ry', v') =
      (r' ∙ r, lx' ∙ lx, ly' ∙ ly, rx' ∙ rx, ry' ∙ ry, λ h. v' (v h))

  Keeps-move_ball : (g : Game F) → Keeps g (move_ball g)
  unfolding Keeps move_ball
  Keeps-move_ball g = (refl, refl, refl, refl, refl, λ h. h)

  Keeps-top_wall : (g : Game F) → Keeps g (top_wall g)
  unfolding Keeps top_wall
  Keeps-top_wall g =
      if_either (Keeps g) (lt g.ball_y (num 0)) (refl, refl, refl, refl, refl, λ h. h)
        (Keeps-self g)

  Keeps-bottom_wall : (g : Game F) → Keeps g (bottom_wall g)
  unfolding Keeps bottom_wall
  Keeps-bottom_wall g =
      if_either (Keeps g) (lt (sub canvas_h ball_size) g.ball_y)
        (refl, refl, refl, refl, refl, λ h. h) (Keeps-self g)

  module _ (laws : IsFloat float) where
    Keeps-collide :
        (px py pvx : F) (going : Bool) (g : Game F) → Keeps g (try_paddle_collide px py pvx going g)
    unfolding Keeps try_paddle_collide
    Keeps-collide px py pvx going g =
        if_either (Keeps g) (misses px py g || not going) (Keeps-self g)
          (refl, refl, refl, refl, refl, λ h. limit-Within laws 14 _ (omega arith))

    Keeps-score : (g : Game F) → Keeps g (score g)
    unfolding Keeps score reset_ball
    Keeps-score g =
        if_either (Keeps g) (lt (add g.ball_x ball_size) (num 0))
          (refl, refl, refl, refl, refl, λ h. serve-Within laws (negsuc 0) (inr refl))
          (if_either (Keeps g) (lt canvas_w g.ball_x)
            (refl, refl, refl, refl, refl, λ h. serve-Within laws (pos 1) (inl refl))
            (Keeps-self g))

    pub Keeps-simulate_ball : (g : Game F) → Keeps g (simulate_ball g)
    unfolding simulate_ball left_paddle right_paddle
    Keeps-simulate_ball g =
        let moved = move_ball g in
        let walled = bottom_wall (top_wall moved) in
        let left = left_paddle walled in
        let right = right_paddle left in
        Keeps-trans g moved _ (Keeps-move_ball g) (
          Keeps-trans moved (top_wall moved) _ (Keeps-top_wall moved) (
            Keeps-trans (top_wall moved) walled _ (Keeps-bottom_wall (top_wall moved)) (
              Keeps-trans walled left _
                (Keeps-collide walled.left_x walled.left_y walled.left_vx
                  (lt walled.ball_vx (num 0)) walled)
                (Keeps-trans left right _
                  (Keeps-collide left.right_x left.right_y left.right_vx (lt (num 0) left.ball_vx)
                    left)
                  (Keeps-score right)))))
