-- ===== src/Client/Range/Ball.antt =====
-- The ball, the walls, the paddles it meets and the goals keep the numbers of a game small.
use pong_pp.Common.{
  ℕ, ◌*◌, ◌≤◌, ◌≡◌, ◌∙◌, sym, Bool, true, not, ◌||◌, inl, inr, Bool-cases, ◌==◌, ◌%◌, if_either,
  arith,
}
use native.Mathlib.Nat.{mul-le-mul_right}
use pong_pp.Common.Int.{ℤ, pos, negsuc, magnitude}
use pong_pp.Client.Float.{Float, IsFloat, HasBounds}
use pong_pp.Client.Field.{canvas_w, canvas_h, ball_size}
use pong_pp.Client.Game.{Game, reset_ball, increment}
use pong_pp.Client.Ball.{
  misses, try_paddle_collide, move_ball, top_wall, bottom_wall, left_paddle, right_paddle, score,
  simulate_ball,
}
use pong_pp.Client.Limits.{Within, centre_x_num, centre_y_num}
use pong_pp.Client.Goals.{simulate_ball_lem}
use pong_pp.Client.Range.{limit-Bounded, spin-Bounded}

module _ {F : Type 0} ⦃float : Float F⦄ (laws : IsFloat float) (bounds : HasBounds float) where
  open float use {lt, add, sub, mul, div, neg, num, tenths, of_int}
  open laws use {num_sub}
  open bounds use {
    Bounded, bounded_more, bounded_num, bounded_tenths, bounded_neg, bounded_add, bounded_sub,
    bounded_mul, bounded_of_int, bounded_from, bounded_around, add_lt_zero,
  }

  -- The player `k` is in a game, and no paddle is farther out than the field is large.
  abbrev pub Paddles : ℕ → Game F → Type 0
  Paddles k g =
      (g.in_game ≡ true)
      × (g.role ≡ pos k)
      × Bounded 800 g.left_x
      × Bounded 600 g.left_y
      × Bounded 800 g.right_x
      × Bounded 600 g.right_y
      × Bounded 1600 g.left_vx
      × Bounded 1600 g.right_vx

  -- And the ball is not farther out than `x` and `y`.
  unfoldable pub Fits : ℕ → ℕ → ℕ → Game F → Type 0
  Fits k x y g =
      Paddles k g
      × Bounded x g.ball_x
      × Bounded y g.ball_y
      × Bounded 14 g.ball_vx
      × Bounded 45 g.ball_vy

  move_ball-Fits : (k : ℕ) (g : Game F) → Fits k 800 600 g → Fits k 814 645 (move_ball g)
  unfolding Fits move_ball
  move_ball-Fits k g (rest, x, y, vx, vy) = (
    rest,
    bounded_add 800 14 _ _ (omega arith) x vx,
    bounded_add 600 45 _ _ (omega arith) y vy,
    vx,
    vy,
  )

  top_wall-Fits : (k : ℕ) (g : Game F) → Fits k 814 645 g → Fits k 814 645 (top_wall g)
  unfolding Fits top_wall
  top_wall-Fits k g (rest, x, y, vx, vy) =
      if_either (Fits k 814 645) (lt g.ball_y (num 0))
        (
          rest,
          x,
          bounded_more 0 645 (num 0) (omega arith) (bounded_num 0 (omega arith)),
          vx,
          bounded_neg 45 g.ball_vy vy,
        )
        (rest, x, y, vx, vy)

  bottom_wall-Fits : (k : ℕ) (g : Game F) → Fits k 814 645 g → Fits k 814 645 (bottom_wall g)
  unfolding Fits bottom_wall
  bottom_wall-Fits k g (rest, x, y, vx, vy) =
      if_either (Fits k 814 645) (lt (sub canvas_h ball_size) g.ball_y)
        (
          rest,
          x,
          bounded_more 614 645 _ (omega arith) (
              bounded_sub 600 14 _ _ (omega arith) (bounded_num 600 (omega arith))
                (bounded_num 14 (omega arith))),
          vx,
          bounded_neg 45 g.ball_vy vy,
        )
        (rest, x, y, vx, vy)

  collide-Fits :
      (k : ℕ) (px py pvx : F) (going : Bool) (g : Game F)
      → Bounded 600 py
      → Bounded 1600 pvx
      → Fits k 814 645 g
      → Fits k 814 645 (try_paddle_collide px py pvx going g)
  unfolding Fits try_paddle_collide
  collide-Fits k px py pvx going g hy hv (rest, x, y, vx, vy) =
      if_either (Fits k 814 645) (misses px py g || not going) (rest, x, y, vx, vy)
        (
          rest,
          x,
          y,
          limit-Bounded laws bounds 9614 14 _ (omega arith) (
              bounded_add 14 9600 _ _ (omega arith) (bounded_neg 14 g.ball_vx vx) (
                bounded_mul 1600 6 pvx (tenths 6) (omega arith) hv
                  (bounded_tenths 6 (omega arith)))),
          spin-Bounded laws bounds g.ball_y py y hy,
        )

  left_paddle-Fits : (k : ℕ) (g : Game F) → Fits k 814 645 g → Fits k 814 645 (left_paddle g)
  unfolding left_paddle Fits
  left_paddle-Fits k g (rest, x, y, vx, vy) =
      let (play, role, lx, ly, rx, ry, lv, rv) = rest in
      collide-Fits k g.left_x g.left_y g.left_vx _ g ly lv (rest, x, y, vx, vy)

  right_paddle-Fits : (k : ℕ) (g : Game F) → Fits k 814 645 g → Fits k 814 645 (right_paddle g)
  unfolding right_paddle Fits
  right_paddle-Fits k g (rest, x, y, vx, vy) =
      let (play, role, lx, ly, rx, ry, lv, rv) = rest in
      collide-Fits k g.right_x g.right_y g.right_vx _ g ry rv (rest, x, y, vx, vy)

  pub reset_ball-Fits :
      (k n : ℕ) (d : ℤ) (g : Game F)
      → 293 ≤ n
      → magnitude d ≤ 1
      → Paddles k g
      → Fits k 800 n (reset_ball d g)
  unfolding Fits reset_ball
  reset_ball-Fits k n d g high one rest = (
    rest,
    rw (centre_x_num laws)
        (bounded_more 393 800 (num 393) (omega arith) (bounded_num 393 (omega arith))),
    rw (centre_y_num laws) (bounded_more 293 n (num 293) high (bounded_num 293 (omega arith))),
    serve d one,
    if_either (Bounded 45) (g.serve_seed % 2 == 1) three (bounded_neg 45 (num 3) three),
  )
    where
      three : Bounded 45 (num 3)
      three = bounded_more 3 45 (num 3) (omega arith) (bounded_num 3 (omega arith))

      serve : (d : ℤ) → magnitude d ≤ 1 → Bounded 14 (mul (of_int d) (num 5))
      serve d one =
          let few : magnitude d * 5 ≤ 1 * 5 = mul-le-mul_right 5 one in
          bounded_more (magnitude d * 5) 14 _ (omega arith) (
            bounded_mul (magnitude d) 5 _ _ (omega arith) (bounded_of_int d (omega arith))
              (bounded_num 5 (omega arith)))

  -- A ball that no player has missed is in the field, or up to its size left of it.
  score-Fits : (k : ℕ) (g : Game F) → Fits k 814 645 g → Fits k 800 645 (score g)
  unfolding score Fits
  score-Fits k g (rest, x, y, vx, vy) = elim (Bool-cases (lt (add g.ball_x ball_size) (num 0))) [
    | inl out ↦ rw out (
        reset_ball-Fits k 645 (negsuc 0) (record g { right_score = increment g.right_score })
          (omega arith) (omega arith) rest)
    | inr not_left ↦ elim (Bool-cases (lt canvas_w g.ball_x)) [
      | inl out ↦
          rw (not_left, out)
            (reset_ball-Fits k 645 (pos 1) (record g { left_score = increment g.left_score })
              (omega arith) (omega arith) rest)
      | inr not_right ↦
          rw (not_left, not_right)
            (
              rest,
              bounded_around 814 14 800 g.ball_x (omega arith) (omega arith) x
                  (sym (add_lt_zero g.ball_x ball_size) ∙ not_left) not_right,
              y,
              vx,
              vy,
            )
    ]
  ]

  lower-Fits :
      (k : ℕ) (g : Game F) → Within (num 0) (num 586) g.ball_y → Fits k 800 645 g → Fits k 800 600 g
  unfolding Fits Within
  lower-Fits k g (above, below) (rest, x, y, vx, vy) = (
    rest,
    x,
    bounded_more 586 600 g.ball_y (omega arith)
        (bounded_from 645 0 586 g.ball_y (omega arith) (omega arith) y above below),
    vx,
    vy,
  )

  pub simulate_ball-Fits :
      (k : ℕ) (g : Game F) → Fits k 800 600 g → Fits k 800 600 (simulate_ball g)
  unfolding simulate_ball
  simulate_ball-Fits k g all = lower-Fits k (simulate_ball g) (simulate_ball_lem laws g).1 (
      score-Fits k _ (
        right_paddle-Fits k _ (
          left_paddle-Fits k _
            (bottom_wall-Fits k _ (top_wall-Fits k _ (move_ball-Fits k g all))))))
