-- ===== src/Client/Screen.antt =====
-- src/client/main.cpp: what `render` draws. `none` stands for a write behind the end of `buf`, and
-- for a loop that has not ended.
pub mod Buffer
use pong_pp.Common.{
  ℕ, zero, suc, Option, none, some, List, [], ◌∷◌, ◌++◌, leb, length, if◌then◌else◌,
}
use pong_pp.Common.Int.{ℤ}
use pong_pp.Client.Wire.{int_to_str}
use pong_pp.Client.Float.{Float}
use pong_pp.Client.Field.{canvas_h, half_w, ball_size, paddle_w, paddle_h}
use pong_pp.Client.Game.{Game}

-- The imported functions of the canvas, with their arguments; the three parts of a colour are equal.
pub data Draw (F : Type 0) : Type 0 where
  clear_canvas : Draw F
  fill_rect : F → F → F → F → ℕ → Draw F
  fill_text : F → F → List ℕ → ℕ → ℕ → Draw F

-- char buf[8]; n = int_to_str(score, buf)
unfoldable pub score_text : ℤ → Option (List ℕ)
score_text score = if leb (length (int_to_str score)) 8 then some (int_to_str score) else none

module _ {F : Type 0} ⦃float : Float F⦄ where
  open float use {lt, add, sub, div, num}

  abbrev pub dash_h : F
  dash_h = num 16

  abbrev pub dash_w : F
  dash_w = num 4

  abbrev pub gap : F
  gap = num 12

  abbrev pub in_front : Draw F → Option (List (Draw F)) → Option (List (Draw F))
  in_front d none = none
  in_front d (some ds) = some (d ∷ ds)

  -- for (float y = 0.0f; y < CANVAS_H; y += DASH_H + GAP)
  unfoldable pub dashes : ℕ → F → Option (List (Draw F))
  dashes zero y = none
  dashes (suc fuel) y =
      let rest =
        in_front (fill_rect (sub half_w (div dash_w (num 2))) y dash_w dash_h 80)
          (dashes fuel (add y (add dash_h gap))) in
      if lt y canvas_h then rest else some []

  abbrev pub pieces : Game F → List (Draw F)
  pieces g =
      fill_rect g.left_x g.left_y paddle_w paddle_h 255
      ∷ fill_rect g.right_x g.right_y paddle_w paddle_h 255
      ∷ fill_rect g.ball_x g.ball_y ball_size ball_size 255
      ∷ []

  abbrev pub text_at : F → List ℕ → Draw F
  text_at x text = fill_text x (num 70) text 56 200

  -- The drawing is complete if the loop ended and both scores fit.
  unfoldable pub drawing :
      Game F → Option (List (Draw F)) → Option (List ℕ) → Option (List ℕ) → Option (List (Draw F))
  drawing g (some lines) (some left) (some right) = some (
      clear_canvas
      ∷ (lines
          ++ (pieces g
              ++ (text_at (sub half_w (num 80)) left ∷ text_at (add half_w (num 50)) right ∷ []))))
  drawing g lines left right = none

  -- The loop has 22 rounds, and one more that ends it.
  unfoldable pub render : Game F → Option (List (Draw F))
  render g = drawing g (dashes 23 (num 0)) (score_text g.left_score) (score_text g.right_score)
