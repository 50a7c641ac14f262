-- ===== src/Client/Screen/Buffer.antt =====
-- The loop of the dashes ends, and the buffer of the scores holds those below 10 ^ 8 and no others.
use pong_pp.Common.{
  ℕ, zero, suc, ◌+◌, ◌*◌, ◌≤◌, ◌<◌, ◌≡◌, refl, ◌∙◌, ap, true, false, ◌⊎◌, inl, inr, Bool-cases,
  Option, none, some, List, [], ◌∷◌, ltb, arith,
}
use pong_pp.Common.Int.{pos}
use pong_pp.Client.Wire.{int_to_str}
use pong_pp.Client.Wire.Bounds.{ten_to, score_fits, score_overflows}
use pong_pp.Client.Float.{Float, IsFloat}
use pong_pp.Client.Field.{half_w}
use pong_pp.Client.Game.{Game}
use pong_pp.Client.Screen.{
  Draw, fill_rect, dash_w, score_text, dashes, in_front, dash_h, gap, drawing, render,
}

score_text_fits : (n : ℕ) → n < ten_to 8 → score_text (pos n) ≡ some (int_to_str (pos n))
unfolding score_text
score_text_fits n h = let few = score_fits n h in ground (arith, few)

score_text_overflows : (n : ℕ) → ten_to 8 ≤ n → score_text (pos n) ≡ none
unfolding score_text
score_text_overflows n h = let many = score_overflows n h in ground (arith, many)

module _ {F : Type 0} ⦃float : Float F⦄ where
  open float use {lt, add, sub, div, num}

  drawing-left :
      (g : Game F) (lines : Option (List (Draw F))) (right : Option (List ℕ))
      → drawing g lines none right ≡ none
  unfolding drawing
  drawing-left g none right = refl
  drawing-left g (some lines) right = refl

  drawing-right :
      (g : Game F) (lines : Option (List (Draw F))) (left : Option (List ℕ))
      → drawing g lines left none ≡ none
  unfolding drawing
  drawing-right g none left = refl
  drawing-right g (some lines) none = refl
  drawing-right g (some lines) (some left) = refl

  -- A score from 10 ^ 8 on is written behind the end of the buffer.
  pub render-overflow :
      (g : Game F) (l r : ℕ)
      → g.left_score ≡ pos l
      → g.right_score ≡ pos r
      → (ten_to 8 ≤ l) ⊎ (ten_to 8 ≤ r)
      → render g ≡ none
  unfolding render
  render-overflow g l r el er (inl big) =
      ap (λ t. drawing g (dashes 23 (num 0)) t (score_text g.right_score))
        (ap score_text el ∙ score_text_overflows l big)
      ∙ drawing-left g _ _
  render-overflow g l r el er (inr big) =
      ap (drawing g (dashes 23 (num 0)) (score_text g.left_score))
        (ap score_text er ∙ score_text_overflows r big)
      ∙ drawing-right g _ _

  module _ (laws : IsFloat float) where
    open laws use {num_lt, num_add}

    abbrev dash : ℕ → Draw F
    dash y = fill_rect (sub half_w (div dash_w (num 2))) (num y) dash_w dash_h 80

    one_dash :
        (fuel y : ℕ)
        → y < 600
        → dashes (suc fuel) (num y) ≡ in_front (dash y) (dashes fuel (num (y + 28)))
    unfolding dashes
    one_dash fuel y h =
        rw (num_lt y 600 (omega arith) (omega arith), below)
          (ap (λ z. in_front (dash y) (dashes fuel z)) next_y)
      where
        below : ltb y 600 ≡ true
        below = ground arith

        next_y : add (num y) (add dash_h gap) ≡ num (y + 28)
        next_y = ap (add (num y)) (num_add 16 12 (omega arith)) ∙ num_add y 28 (omega arith)

    no_dash : (fuel y : ℕ) → 600 ≤ y → y ≤ 1000 → dashes (suc fuel) (num y) ≡ some []
    unfolding dashes
    no_dash fuel y far near = rw (num_lt y 600 (omega arith) (omega arith), not_below) refl
      where
        not_below : ltb y 600 ≡ false
        not_below = ground arith

    -- Each round goes 28 down the canvas.
    dashes_end :
        (fuel y : ℕ)
        → 600 ≤ y + 28 * fuel
        → y ≤ 1000
        → (ds : List (Draw F)) × (dashes (suc fuel) (num y) ≡ some ds)
    dashes_end zero y far near = ([], no_dash 0 y (omega arith) near)
    dashes_end (suc fuel) y far near = elim (Bool-cases (ltb y 600)) [
      | inr below ↦ ([], no_dash (suc fuel) y (ground arith) near)
      | inl above ↦
          let h : y < 600 = ground arith in
          let (ds, e) = dashes_end fuel (y + 28) (omega arith) (omega arith) in
          (dash y ∷ ds, one_dash (suc fuel) y h ∙ ap (in_front (dash y)) e)
    ]

    -- On floats that obey the laws of `Client.Float`, for a game whose scores are not negative: if
    -- both are below 10 ^ 8, the drawing is complete, the loop of its dashes ends and both scores
    -- stay within the buffer of 8 bytes; and if one of them is not, the buffer overflows.
    pub render_lem :
        (g : Game F) (l r : ℕ)
        → g.left_score ≡ pos l
        → g.right_score ≡ pos r
        → (l < ten_to 8 → r < ten_to 8 → (ds : List (Draw F)) × (render g ≡ some ds))
          × ((ten_to 8 ≤ l) ⊎ (ten_to 8 ≤ r) → render g ≡ none)
    unfolding render drawing
    render_lem g l r el er = (
      λ hl hr.
          let (ds, e) = dashes_end 22 0 (omega arith) (omega arith) in
          (
            _,
            ap (λ d. drawing g d (score_text g.left_score) (score_text g.right_score)) e
                ∙ ap (λ t. drawing g (some ds) t (score_text g.right_score))
                    (ap score_text el ∙ score_text_fits l hl)
                ∙ ap (drawing g (some ds) (some (int_to_str (pos l))))
                    (ap score_text er ∙ score_text_fits r hr),
          ),
      render-overflow g l r el er,
    )
