-- ===== src/Client/Limits.antt =====
-- src/client/main.cpp: the measures of the field as numbers, and what the two ways to limit a value
-- ensure.
use pong_pp.Common.{ℕ, ◌≤◌, ◌≡◌, ◌∙◌, ap, false, inl, inr, Bool-cases, ltb, arith}
use pong_pp.Client.Float.{Float, IsFloat, exact}
use pong_pp.Client.Field.{
  canvas_h, half_w, ball_size, paddle_w, paddle_h, right_home_x, left_x_max, right_x_max,
}
use pong_pp.Client.Game.{clampf}
use pong_pp.Client.Ball.{limit}

not_below : (a b : ℕ) → b ≤ a → ltb a b ≡ false
not_below a b h = ground arith

module _ {F : Type 0} ⦃float : Float F⦄ where
  open float use {lt, add, sub, mul, div, neg, num}

  -- Neither below `lo` nor above `hi`.
  unfoldable pub Within : F → F → F → Type 0
  Within lo hi v = (lt v lo ≡ false) × (lt hi v ≡ false)

  module _ (laws : IsFloat float) where
    open laws use {num_lt, num_sub, num_half, neg_lt, neg_lt_num}

    pub num_not_lt : (a b : ℕ) → a ≤ exact → b ≤ a → lt (num a) (num b) ≡ false
    num_not_lt a b h le = num_lt a b h (omega arith) ∙ not_below a b le

    pub num-Within : (a b c : ℕ) → a ≤ c → c ≤ b → b ≤ exact → Within (num a) (num b) (num c)
    unfolding Within
    num-Within a b c h h' small = (num_not_lt c a (omega arith) h, num_not_lt b c small h')

    pub clampf-Within :
        (a b : ℕ) (v : F) → a ≤ b → b ≤ exact → Within (num a) (num b) (clampf v (num a) (num b))
    unfolding clampf
    clampf-Within a b v h small = elim (Bool-cases (lt v (num a))) [
      | inl low ↦ rw low (num-Within a b a (omega arith) h small)
      | inr not_low ↦ elim (Bool-cases (lt (num b) v)) [
        | inl high ↦ rw (not_low, high) (num-Within a b b h (omega arith) small)
        | inr not_high ↦ rw (not_low, not_high) (unfold Within in (not_low, not_high))
      ]
    ]

    pub limit-Within :
        (m : ℕ) (v : F) → m ≤ exact → Within (neg (num m)) (num m) (limit (neg (num m)) (num m) v)
    unfolding limit Within
    limit-Within m v small = elim (Bool-cases (lt (num m) v)) [
      | inl high ↦
          rw (high, neg_lt_num m m small small)
            (neg_lt_num m m small small, num_not_lt m m small (omega arith))
      | inr not_high ↦ elim (Bool-cases (lt v (neg (num m)))) [
        | inl low ↦
            rw (not_high, low)
              (
                neg_lt (num m) (num m) ∙ num_not_lt m m small (omega arith),
                neg_lt_num m m small small,
              )
        | inr not_low ↦ rw (not_high, not_low) (not_low, not_high)
      ]
    ]

    pub half_w_num : half_w ≡ num 400
    half_w_num = num_half 400 (omega arith)

    pub left_x_max_num : left_x_max ≡ num 388
    left_x_max_num =
        ap (λ x. sub x paddle_w) half_w_num ∙ num_sub 400 12 (omega arith) (omega arith)

    pub right_x_max_num : right_x_max ≡ num 788
    right_x_max_num = num_sub 800 12 (omega arith) (omega arith)

    pub lowest_y_num : sub canvas_h paddle_h ≡ num 510
    lowest_y_num = num_sub 600 90 (omega arith) (omega arith)

    pub right_home_x_num : right_home_x ≡ num 764
    right_home_x_num =
        ap (λ x. sub x paddle_w) (num_sub 800 24 (omega arith) (omega arith))
        ∙ num_sub 776 12 (omega arith) (omega arith)

    pub home_y_num : div (sub canvas_h paddle_h) (num 2) ≡ num 255
    home_y_num = rw lowest_y_num (num_half 255 (omega arith))

    pub centre_x_num : sub half_w (div ball_size (num 2)) ≡ num 393
    centre_x_num =
        rw (half_w_num, num_half 7 (omega arith)) (num_sub 400 7 (omega arith) (omega arith))

    pub centre_y_num : sub (div canvas_h (num 2)) (div ball_size (num 2)) ≡ num 293
    centre_y_num =
        rw (num_half 300 (omega arith), num_half 7 (omega arith))
          (num_sub 300 7 (omega arith) (omega arith))
