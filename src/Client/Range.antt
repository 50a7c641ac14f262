-- ===== src/Client/Range.antt =====
-- src/client/main.cpp: how large the numbers get that the game computes.
pub mod Ball
pub mod Frame
pub mod Tick
use pong_pp.Common.{
  ℕ, ◌+◌, ◌*◌, ◌≤◌, ◌≡◌, ◌∙◌, sym, subst, false, inl, inr, if_either, if◌then◌else◌, Bool-cases,
  arith,
}
use pong_pp.Common.Int.{ℤ, magnitude}
use pong_pp.Client.Float.{Float, IsFloat, HasBounds, exact}
use pong_pp.Client.Field.{canvas_h, ball_size, paddle_h, max_ball_vx, ball_speed_y, paddle_boost}
use pong_pp.Client.Game.{clampf}
use pong_pp.Client.Ball.{limit, spin}

module _ {F : Type 0} ⦃float : Float F⦄ (laws : IsFloat float) (bounds : HasBounds float) where
  open float use {lt, add, sub, mul, div, neg, num, tenths, of_int, to_int}
  open laws use {num_half}
  open bounds use {
    Bounded, bounded_more, bounded_num, bounded_tenths, bounded_neg, bounded_add, bounded_sub,
    bounded_mul, bounded_div, bounded_from, bounded_around,
  }

  pub clampf-Bounded :
      (n a b : ℕ) (v : F) → a ≤ b → b ≤ exact → Bounded n v → Bounded b (clampf v (num a) (num b))
  unfolding clampf
  clampf-Bounded n a b v h small all = elim (Bool-cases (lt v (num a))) [
    | inl low ↦ rw low (bounded_more a b (num a) h (bounded_num a (omega arith)))
    | inr not_low ↦ elim (Bool-cases (lt (num b) v)) [
      | inl high ↦ rw (not_low, high) (bounded_num b small)
      | inr not_high ↦ rw (not_low, not_high) (bounded_from n a b v h small all not_low not_high)
    ]
  ]

  pub limit-Bounded :
      (n m : ℕ) (v : F) → m ≤ exact → Bounded n v → Bounded m (limit (neg (num m)) (num m) v)
  unfolding limit
  limit-Bounded n m v small all = elim (Bool-cases (lt (num m) v)) [
    | inl high ↦ rw high (if_either (Bounded m) (lt (num m) (neg (num m))) lowest highest)
    | inr not_high ↦ elim (Bool-cases (lt v (neg (num m)))) [
      | inl low ↦ rw (not_high, low) lowest
      | inr not_low ↦
          rw (not_high, not_low) (bounded_around n m m v (omega arith) small all not_low not_high)
    ]
  ]
    where
      highest : Bounded m (num m)
      highest = bounded_num m small

      lowest : Bounded m (neg (num m))
      lowest = bounded_neg m (num m) highest

  -- The middle of something high `2 * h` at `y`.
  middle-Bounded :
      (n h : ℕ) (y : F)
      → n + h ≤ exact
      → 2 * h ≤ exact
      → Bounded n y
      → Bounded (n + h) (add y (div (num (2 * h)) (num 2)))
  middle-Bounded n h y small small' all =
      rw (num_half h small') (bounded_add n h y (num h) small all (bounded_num h (omega arith)))

  -- The offset on the paddle, limited to 1 either way.
  offset-Bounded :
      (n : ℕ) (v : F)
      → Bounded n v
      → (let v' = if lt v (neg (num 1)) then neg (num 1) else v in
          Bounded 1 (if lt (num 1) v' then num 1 else v'))
  offset-Bounded n v all = elim (Bool-cases (lt v (neg (num 1)))) [
    | inl low ↦ rw low (if_either (Bounded 1) (lt (num 1) (neg (num 1))) one minus_one)
    | inr not_low ↦ elim (Bool-cases (lt (num 1) v)) [
      | inl high ↦ rw (not_low, high) one
      | inr not_high ↦
          rw (not_low, not_high)
            (bounded_around n 1 1 v (omega arith) (omega arith) all not_low not_high)
    ]
  ]
    where
      one : Bounded 1 (num 1)
      one = bounded_num 1 (omega arith)

      minus_one : Bounded 1 (neg (num 1))
      minus_one = bounded_neg 1 (num 1) one

  -- Whatever the hit, the ball does not get faster than this downwards.
  pub spin-Bounded :
      (y paddle : F) → Bounded 645 y → Bounded 600 paddle → Bounded 45 (spin y paddle)
  unfolding spin
  spin-Bounded y paddle hy hp =
      bounded_mul 3 15 _ (tenths 15) (omega arith)
        (bounded_mul 1 3 _ (num 3) (omega arith)
          (offset-Bounded 1297 _ (
            over_half _ (
              bounded_sub 652 645 _ _ (omega arith)
                (middle-Bounded 645 7 y (omega arith) (omega arith) hy)
                (middle-Bounded 600 45 paddle (omega arith) (omega arith) hp))))
          (bounded_num 3 (omega arith)))
        (bounded_tenths 15 (omega arith))
    where
      over_half : (v : F) → Bounded 1297 v → Bounded 1297 (div v (div paddle_h (num 2)))
      over_half v all =
          subst (λ d. Bounded 1297 (div v d)) (sym (num_half 45 (omega arith)))
            (bounded_div 1297 45 v (omega arith) (omega arith) all)
