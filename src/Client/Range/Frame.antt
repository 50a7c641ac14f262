-- ===== src/Client/Range/Frame.antt =====
-- The keys and the kickoff keep the numbers of a game small.
use pong_pp.Common.{
  ℕ, ◌+◌, ◌*◌, ◌≤◌, ◌≡◌, refl, sym, subst, Bool, true, false, if_either, if◌then◌else◌, arith,
}
use native.Mathlib.Nat.{mul-le-mul_right}
use pong_pp.Common.Int.{ℤ, pos, negsuc, magnitude}
use pong_pp.Client.Float.{Float, IsFloat, HasBounds, exact}
use pong_pp.Client.Field.{canvas_h, paddle_h, left_x_min, left_x_max, right_x_min, right_x_max}
use pong_pp.Client.Game.{Game, is_int, clampf, reset_ball, home, start_game}
use pong_pp.Client.Paddle.{moved_x, moved_y, move_local_paddle}
use pong_pp.Client.Limits.{
  home_y_num, right_home_x_num, half_w_num, left_x_max_num, right_x_max_num, lowest_y_num,
}
use pong_pp.Client.Range.{clampf-Bounded}
use pong_pp.Client.Range.Ball.{Paddles, Fits, reset_ball-Fits}

module _ {F : Type 0} ⦃float : Float F⦄ (laws : IsFloat float) (bounds : HasBounds float) where
  open float use {lt, add, sub, mul, div, neg, num, tenths, of_int}
  open laws use {num_sub}
  open bounds use {
    Bounded, bounded_more, bounded_num, bounded_tenths, bounded_neg, bounded_add, bounded_sub,
    bounded_mul, bounded_of_int, bounded_from, bounded_around, add_lt_zero,
  }

  -- A step of at most `n` in one of three directions.
  moved-Bounded :
      (n s : ℕ) (v : F) (d : ℤ)
      → n + s ≤ exact
      → magnitude d ≤ 1
      → Bounded n v
      → Bounded (n + s) (add v (mul (of_int d) (num s)))
  moved-Bounded n s v d small h all =
      let one : magnitude d * s ≤ 1 * s = mul-le-mul_right s h in
      bounded_add n s v _ small all (
        bounded_more (magnitude d * s) s _ (omega arith) (
          bounded_mul (magnitude d) s _ _ (omega arith) (bounded_of_int d (omega arith))
            (bounded_num s (omega arith))))

  moved_left-Bounded :
      (x : F) (dx : ℤ)
      → magnitude dx ≤ 1
      → Bounded 800 x
      → Bounded 800 (moved_x x dx left_x_min left_x_max)
  unfolding moved_x
  moved_left-Bounded x dx h all =
      subst (λ m. Bounded 800 (clampf (add x (mul (of_int dx) (num 4))) (num 0) m))
        (sym (left_x_max_num laws))
        (bounded_more 388 800 _ (omega arith) (
          clampf-Bounded laws bounds 804 0 388 _ (omega arith) (omega arith)
            (moved-Bounded 800 4 x dx (omega arith) h all)))

  pub clampf_right-Bounded :
      (n : ℕ) (v : F) → Bounded n v → Bounded 800 (clampf v right_x_min right_x_max)
  clampf_right-Bounded n v all =
      subst (λ l. Bounded 800 (clampf v l right_x_max)) (sym (half_w_num laws))
        (subst (λ m. Bounded 800 (clampf v (num 400) m)) (sym (right_x_max_num laws))
          (bounded_more 788 800 _ (omega arith)
            (clampf-Bounded laws bounds n 400 788 v (omega arith) (omega arith) all)))

  pub clampf_y-Bounded :
      (n : ℕ) (v : F) → Bounded n v → Bounded 600 (clampf v (num 0) (sub canvas_h paddle_h))
  clampf_y-Bounded n v all =
      subst (λ m. Bounded 600 (clampf v (num 0) m)) (sym (lowest_y_num laws))
        (bounded_more 510 600 _ (omega arith)
          (clampf-Bounded laws bounds n 0 510 v (omega arith) (omega arith) all))

  pub move_local_paddle-Fits :
      (k : ℕ) (dx dy : ℤ) (g : Game F)
      → magnitude dx ≤ 1
      → magnitude dy ≤ 1
      → Fits laws bounds k 800 600 g
      → Fits laws bounds k 800 600 (move_local_paddle dx dy g)
  unfolding move_local_paddle Fits moved_x moved_y
  move_local_paddle-Fits k dx dy g hx hy (rest, ball, y, vx, vy) =
      let (play, role, lx, ly, rx, ry, lv, rv) = rest in
      let left = moved_left-Bounded g.left_x dx hx lx in
      let right =
        clampf_right-Bounded 804 _ (moved-Bounded 800 4 g.right_x dx (omega arith) hx rx) in
      if_either (Fits laws bounds k 800 600) (is_int 0 g.role)
        (
          (
            play,
            role,
            left,
            clampf_y-Bounded 606 _ (moved-Bounded 600 6 g.left_y dy (omega arith) hy ly),
            rx,
            ry,
            bounded_sub 800 800 _ _ (omega arith) left lx,
            rv,
          ),
          ball,
          y,
          vx,
          vy,
        )
        (
          (
            play,
            role,
            lx,
            ly,
            right,
            clampf_y-Bounded 606 _ (moved-Bounded 600 6 g.right_y dy (omega arith) hy ry),
            lv,
            bounded_sub 800 800 _ _ (omega arith) right rx,
          ),
          ball,
          y,
          vx,
          vy,
        )

  home-Paddles :
      (k : ℕ) (g : Game F) → g.in_game ≡ true → g.role ≡ pos k → Paddles laws bounds k (home g)
  unfolding home
  home-Paddles k g play role =
      let y : Bounded 600 (div (sub canvas_h paddle_h) (num 2)) =
        rw (home_y_num laws)
          (bounded_more 255 600 (num 255) (omega arith) (bounded_num 255 (omega arith))) in
      let still = bounded_more 0 1600 (num 0) (omega arith) (bounded_num 0 (omega arith)) in
      (
        play,
        role,
        bounded_more 24 800 (num 24) (omega arith) (bounded_num 24 (omega arith)),
        y,
        rw (right_home_x_num laws)
            (bounded_more 764 800 (num 764) (omega arith) (bounded_num 764 (omega arith))),
        y,
        still,
        still,
      )

  serve-small : (b : Bool) → magnitude (if b then pos 1 else negsuc 0) ≤ 1
  serve-small true = omega arith
  serve-small false = omega arith

  -- `start_game` sets all but the seed of the serves.
  pub start_game-Fits : (k : ℕ) (g : Game F) → Fits laws bounds k 800 600 (start_game (pos k) g)
  unfolding start_game reset_ball home
  start_game-Fits k g =
      reset_ball-Fits laws bounds k 600 _ (home (record g { role = pos k; in_game = true }))
        (omega arith) (serve-small (is_int 0 (pos k)))
        (home-Paddles k (record g { role = pos k; in_game = true }) refl refl)
