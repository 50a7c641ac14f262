-- ===== src/Client/Serves.antt =====
-- src/client/main.cpp: what a frame and a message of the other game do to the counter of the serves,
-- `serve_seed`, and to the role.
use pong_pp.Common.{
  ℕ, ◌+◌, ◌≤◌, ◌≡◌, refl, ◌∙◌, ap, Bool, false, not, ◌||◌, ◌&&◌, Option, none, some, List, [], ◌∷◌,
  if_either, arith, ltb, length, get_or, ◌==◌,
}
use pong_pp.Common.Int.{ℤ, pos}
use pong_pp.Client.Wire.{read_message}
use pong_pp.Client.Float.{Float}
use pong_pp.Client.Field.{canvas_w, canvas_h, ball_size}
use pong_pp.Client.Game.{Game, is_int, reset_ball}
use pong_pp.Client.Ball.{
  misses, try_paddle_collide, move_ball, top_wall, bottom_wall, left_paddle, right_paddle, score,
  simulate_ball,
}
use pong_pp.Client.Paddle.{move_local_paddle}
use pong_pp.Client.Peer.{take_paddle, take_state, with_values, on_peer_message}
use pong_pp.Client.Screen.{Draw}
use pong_pp.Client.Tick.{tick}

-- The value, if there is one.
abbrev pub WhereSome {ℓ} : {A : Type ℓ} → (A → Type 0) → Option A → Type 0
WhereSome P none = Unit {0}
WhereSome P (some a) = P a

module _ {F : Type 0} ⦃float : Float F⦄ where
  open float use {lt, add, sub, num}

  -- No serve, and the role stays.
  unfoldable pub NoServe : Game F → Game F → Type 0
  NoServe g g' = (g'.serve_seed ≡ g.serve_seed) × (g'.role ≡ g.role)

  -- One serve or none.
  unfoldable pub OneServe : Game F → Game F → Type 0
  OneServe g g' = g'.serve_seed ≤ g.serve_seed + 1

  move_local_paddle-NoServe : (dx dy : ℤ) (g : Game F) → NoServe g (move_local_paddle dx dy g)
  unfolding move_local_paddle NoServe
  move_local_paddle-NoServe dx dy g =
      if_either (NoServe g) (is_int 0 g.role) (refl, refl) (refl, refl)

  collide_serves :
      (x y v : F) (going : Bool) (g : Game F)
      → (try_paddle_collide x y v going g).serve_seed ≡ g.serve_seed
  unfolding try_paddle_collide
  collide_serves x y v going g =
      if_either (λ (h : Game F). h.serve_seed ≡ g.serve_seed) (misses x y g || not going) refl refl

  -- Up to the goals.
  played : Game F → Game F
  played g = right_paddle (left_paddle (bottom_wall (top_wall (move_ball g))))

  played_serves : (g : Game F) → (played g).serve_seed ≡ g.serve_seed
  unfolding played right_paddle left_paddle bottom_wall top_wall move_ball
  played_serves g =
      let moved = move_ball g in
      let topped = top_wall moved in
      let walled = bottom_wall topped in
      let left = left_paddle walled in
      collide_serves left.right_x left.right_y left.right_vx (lt (num 0) left.ball_vx) left
      ∙ collide_serves walled.left_x walled.left_y walled.left_vx (lt walled.ball_vx (num 0)) walled
      ∙ if_either (λ (h : Game F). h.serve_seed ≡ topped.serve_seed)
          (lt (sub canvas_h ball_size) topped.ball_y) refl refl
      ∙ if_either (λ (h : Game F). h.serve_seed ≡ moved.serve_seed) (lt moved.ball_y (num 0)) refl
          refl

  score-OneServe : (g : Game F) → OneServe g (score g)
  unfolding OneServe score reset_ball
  score-OneServe g =
      if_either (OneServe g) (lt (add g.ball_x ball_size) (num 0)) (omega arith)
        (if_either (OneServe g) (lt canvas_w g.ball_x) (omega arith) (omega arith))

  simulate_ball-OneServe : (g : Game F) → OneServe g (simulate_ball g)
  unfolding OneServe simulate_ball played
  simulate_ball-OneServe g = omega (arith, score-OneServe (played g), played_serves g)

  pub tick-OneServe : (dx dy : ℤ) (g : Game F) → OneServe g (tick dx dy g).0
  unfolding OneServe NoServe tick
  tick-OneServe dx dy g =
      let moved = move_local_paddle dx dy g in
      let kept : moved.serve_seed ≡ g.serve_seed = (move_local_paddle-NoServe dx dy g).0 in
      if_either
        (λ (r : Game F × Option (List ℕ) × Option (List (Draw F))).
          r.0.serve_seed ≤ g.serve_seed + 1)
        (not g.in_game) (omega arith)
        (if_either
          (λ (r : Game F × Option (List ℕ) × Option (List (Draw F))).
            r.0.serve_seed ≤ g.serve_seed + 1)
          (is_int 0 moved.role) (omega (arith, simulate_ball-OneServe moved, kept))
          (omega (arith, kept)))

  pub tick-NoServe : (dx dy : ℤ) (g : Game F) → g.role ≡ pos 1 → NoServe g (tick dx dy g).0
  unfolding NoServe tick
  tick-NoServe dx dy g role =
      let moved = move_local_paddle dx dy g in
      let kept = move_local_paddle-NoServe dx dy g in
      let guest : is_int 0 moved.role ≡ false = ap (is_int 0) (kept.1 ∙ role) in
      rw guest (
        if_either (λ (r : Game F × Option (List ℕ) × Option (List (Draw F))). NoServe g r.0)
          (not g.in_game) (refl, refl) kept)

  take_paddle-NoServe : (g : Game F) (values : List ℤ) → NoServe g (take_paddle g values)
  unfolding NoServe take_paddle
  take_paddle-NoServe g [] = (refl, refl)
  take_paddle-NoServe g (x ∷ []) = (refl, refl)
  take_paddle-NoServe g (x ∷ y ∷ []) = (refl, refl)
  take_paddle-NoServe g (x ∷ y ∷ z ∷ values) = (refl, refl)

  take_state-NoServe : (g : Game F) (values : List ℤ) → NoServe g (take_state g values)
  unfolding NoServe take_state
  take_state-NoServe g [] = (refl, refl)
  take_state-NoServe g (a ∷ []) = (refl, refl)
  take_state-NoServe g (a ∷ b ∷ []) = (refl, refl)
  take_state-NoServe g (a ∷ b ∷ c ∷ []) = (refl, refl)
  take_state-NoServe g (a ∷ b ∷ c ∷ d ∷ []) = (refl, refl)
  take_state-NoServe g (a ∷ b ∷ c ∷ d ∷ e ∷ []) = (refl, refl)
  take_state-NoServe g (a ∷ b ∷ c ∷ d ∷ e ∷ f ∷ []) = (refl, refl)
  take_state-NoServe g (a ∷ b ∷ c ∷ d ∷ e ∷ f ∷ h ∷ []) = (refl, refl)
  take_state-NoServe g (a ∷ b ∷ c ∷ d ∷ e ∷ f ∷ h ∷ i ∷ []) = (refl, refl)
  take_state-NoServe g (a ∷ b ∷ c ∷ d ∷ e ∷ f ∷ h ∷ i ∷ j ∷ values) = (refl, refl)

  with_values-NoServe :
      (g : Game F) (go_on : List ℤ → Game F) (values : Option (List ℤ))
      → ((values : List ℤ) → NoServe g (go_on values))
      → WhereSome (NoServe g) (with_values go_on values)
  unfolding with_values
  with_values-NoServe g go_on none all = tt
  with_values-NoServe g go_on (some values) all = all values

  pub on_peer_message-NoServe :
      (msg : List ℕ) (g : Game F) → WhereSome (NoServe g) (on_peer_message msg g)
  unfolding on_peer_message NoServe
  on_peer_message-NoServe msg g =
      if_either (WhereSome (NoServe g)) (ltb (length msg) 2) (refl, refl)
        (if_either (WhereSome (NoServe g)) (is_int 0 g.role && get_or msg 0 0 == b'P')
          (with_values-NoServe g (take_paddle g) (read_message 2 msg) (take_paddle-NoServe g))
          (if_either (WhereSome (NoServe g)) (is_int 1 g.role && get_or msg 0 0 == b'S')
            (with_values-NoServe g (take_state g) (read_message 8 msg) (take_state-NoServe g))
            (refl, refl)))
