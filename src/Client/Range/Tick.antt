-- ===== src/Client/Range/Tick.antt =====
-- A frame of a game whose numbers are small: it is drawn, and what is sent are whole numbers that an
-- `int` holds.
use pong_pp.Common.{
  ℕ, suc, ◌+◌, ◌^◌, ◌≤◌, ◌<◌, ◌≡◌, ◌∙◌, ap, sym, subst, true, inl, inr, arith, some, List, [], ◌∷◌,
  All,
}
use pong_pp.Common.Int.{ℤ, pos, negsuc, magnitude}
use pong_pp.Client.Wire.Bounds.{ten_to}
use pong_pp.Client.Wire.RoundTrip.{FitsInt}
use pong_pp.Client.Float.{Float, IsFloat, HasBounds}
use pong_pp.Client.Game.{Game, is_int, increment}
use pong_pp.Client.Ball.{simulate_ball}
use pong_pp.Client.Paddle.{move_local_paddle}
use pong_pp.Client.Peer.{send_state, send_paddle}
use pong_pp.Client.Mirror.{snapshot}
use pong_pp.Client.Screen.{Draw}
use pong_pp.Client.Screen.Buffer.{render_lem}
use pong_pp.Client.Tick.{tick, finish_tick}
use pong_pp.Client.Overflow.{last_branch, middle_branch, Untouched, move_local_paddle-Untouched}
use pong_pp.Client.Goals.{Outcome, simulate_ball_lem}
use pong_pp.Client.Range.Ball.{Fits, simulate_ball-Fits}
use pong_pp.Client.Range.Frame.{move_local_paddle-Fits}

abs_fits : (z : ℤ) → magnitude z < 2 ^ 31 → FitsInt z
unfolding FitsInt
abs_fits (pos n) h = h
abs_fits (negsuc n) h = h

module _ {F : Type 0} ⦃float : Float F⦄ (laws : IsFloat float) (bounds : HasBounds float) where
  open float use {num, to_int}
  open bounds use {Bounded, bounded_to_int}

  -- The player `k`, with small numbers and these scores.
  unfoldable pub Plays : ℕ → ℕ → ℕ → Game F → Type 0
  Plays k l r g = Fits laws bounds k 800 600 g × (g.left_score ≡ pos l) × (g.right_score ≡ pos r)

  int_fits : (a : ℕ) (x : F) → a < 2 ^ 31 → Bounded a x → FitsInt (to_int x)
  int_fits a x h all = abs_fits (to_int x) (let few = bounded_to_int a x all in omega arith)

  score_fits : (z : ℤ) (n : ℕ) → z ≡ pos n → n < ten_to 8 → FitsInt z
  unfolding FitsInt
  score_fits z n e h = subst FitsInt (sym e) (omega arith)

  pub snapshot-AllFitsInt :
      (k l r : ℕ) (g : Game F)
      → Plays k l r g
      → l < ten_to 8
      → r < ten_to 8
      → All FitsInt (snapshot g)
  unfolding Plays Fits
  snapshot-AllFitsInt k l r g ((rest, x, y, vx, vy), el, er) hl hr =
      let (play, role, lx, ly, rx, ry, lv, rv) = rest in
      (
        int_fits 800 g.ball_x (omega arith) x,
        (
          int_fits 600 g.ball_y (omega arith) y,
          (
            int_fits 800 g.left_x (omega arith) lx,
            (
              int_fits 600 g.left_y (omega arith) ly,
              (
                int_fits 800 g.right_x (omega arith) rx,
                (
                  int_fits 600 g.right_y (omega arith) ry,
                  (score_fits g.left_score l el hl, (score_fits g.right_score r er hr, tt)),
                ),
              ),
            ),
          ),
        ),
      )

  pub paddle-AllFitsInt :
      (k l r : ℕ) (g : Game F)
      → Plays k l r g
      → All FitsInt (to_int g.right_x ∷ to_int g.right_y ∷ [])
  unfolding Plays Fits
  paddle-AllFitsInt k l r g ((rest, x, y, vx, vy), el, er) =
      let (play, role, lx, ly, rx, ry, lv, rv) = rest in
      (int_fits 800 g.right_x (omega arith) rx, (int_fits 600 g.right_y (omega arith) ry, tt))

  ticked_host :
      (dx dy : ℤ) (g : Game F)
      → g.in_game ≡ true
      → (move_local_paddle dx dy g).role ≡ pos 0
      → tick dx dy g
        ≡ finish_tick
            (send_state (simulate_ball (move_local_paddle dx dy g)))
            (simulate_ball (move_local_paddle dx dy g))
  unfolding tick
  ticked_host dx dy g play role = middle_branch g.in_game _ _ _ _ play (ap (is_int 0) role)

  ticked_guest :
      (dx dy : ℤ) (g : Game F)
      → g.in_game ≡ true
      → (move_local_paddle dx dy g).role ≡ pos 1
      → tick dx dy g
        ≡ finish_tick (send_paddle (move_local_paddle dx dy g)) (move_local_paddle dx dy g)
  unfolding tick
  ticked_guest dx dy g play role = last_branch g.in_game _ _ _ _ play (ap (is_int 0) role)

  -- The scores of an outcome.
  scored :
      (l r : ℕ) (g g' : Game F)
      → Outcome g g'
      → g.left_score ≡ pos l
      → g.right_score ≡ pos r
      → (a : ℕ) × (b : ℕ) × (g'.left_score ≡ pos a)
        × (g'.right_score ≡ pos b)
        × (l ≤ a)
        × (r ≤ b)
        × (a + b ≤ l + r + 1)
  unfolding Outcome
  scored l r g g' (inl (sl, sr, x, y)) el er =
      (l, r, sl ∙ el, sr ∙ er, omega arith, omega arith, omega arith)
  scored l r g g' (inr (inl (sl, sr, x, y, v))) el er =
      (suc l, r, sl ∙ ap increment el, sr ∙ er, omega arith, omega arith, omega arith)
  scored l r g g' (inr (inr (sl, sr, x, y, v))) el er =
      (l, suc r, sl ∙ el, sr ∙ ap increment er, omega arith, omega arith, omega arith)

  -- A frame of the host: at most one score grows, and by one.
  pub host_tick :
      (dx dy : ℤ) (l r : ℕ) (g : Game F)
      → magnitude dx ≤ 1
      → magnitude dy ≤ 1
      → l + r + 1 < ten_to 8
      → Plays 0 l r g
      → (let g' = simulate_ball (move_local_paddle dx dy g) in
          (a : ℕ) × (b : ℕ) × (ds : List (Draw F)) × (tick dx dy g
            ≡ (g', some (send_state g'), some ds))
          × Plays 0 a b g'
          × (l ≤ a)
          × (r ≤ b)
          × (a + b ≤ l + r + 1))
  unfolding Plays Fits Untouched
  host_tick dx dy l r g hx hy few (fits, el, er) =
      let moved = move_local_paddle dx dy g in
      let moved_fits = move_local_paddle-Fits laws bounds 0 dx dy g hx hy fits in
      let (same, same_left, same_right) = (move_local_paddle-Untouched dx dy g) in
      let (a, b, ea, eb, la, rb, one) =
        scored l r moved (simulate_ball moved) (simulate_ball_lem laws moved).0 (same_left ∙ el)
          (same_right ∙ er) in
      let (ds, drawn) =
        (render_lem laws (simulate_ball moved) a b ea eb).0 (omega arith) (omega arith) in
      (
        a,
        b,
        ds,
        ticked_host dx dy g fits.0.0 moved_fits.0.1
            ∙ ap (λ r. (simulate_ball moved, some (send_state (simulate_ball moved)), r)) drawn,
        (simulate_ball-Fits laws bounds 0 moved moved_fits, ea, eb),
        la,
        rb,
        one,
      )

  -- A frame of the guest: the scores stay.
  pub guest_tick :
      (dx dy : ℤ) (l r : ℕ) (g : Game F)
      → magnitude dx ≤ 1
      → magnitude dy ≤ 1
      → l < ten_to 8
      → r < ten_to 8
      → Plays 1 l r g
      → (let g' = move_local_paddle dx dy g in
          (ds : List (Draw F)) × (tick dx dy g ≡ (g', some (send_paddle g'), some ds))
          × Plays 1 l r g')
  unfolding Plays Fits Untouched
  guest_tick dx dy l r g hx hy hl hr (fits, el, er) =
      let moved = move_local_paddle dx dy g in
      let moved_fits = move_local_paddle-Fits laws bounds 1 dx dy g hx hy fits in
      let (same, same_left, same_right) = move_local_paddle-Untouched dx dy g in
      let ea = same_left ∙ el in
      let eb = same_right ∙ er in
      let (ds, drawn) = (render_lem laws moved l r ea eb).0 hl hr in
      (
        ds,
        ticked_guest dx dy g fits.0.0 moved_fits.0.1
            ∙ ap (λ r. (moved, some (send_paddle moved), r)) drawn,
        (moved_fits, ea, eb),
      )
