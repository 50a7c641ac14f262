-- ===== src/Client/Overflow.antt =====
-- src/client/main.cpp: a score of nine digits from the other game.
use pong_pp.Common.{
  ℕ, ◌≤◌, ◌≡◌, refl, ◌∙◌, ap, Bool, true, false, ◌⊎◌, none, some, List, [], ◌∷◌, All, if_either,
  if◌then◌else◌, not,
}
use pong_pp.Common.Int.{ℤ, pos}
use pong_pp.Client.Wire.{message}
use pong_pp.Client.Wire.Bounds.{ten_to}
use pong_pp.Client.Wire.RoundTrip.{FitsInt, read_message-message}
use pong_pp.Client.Float.{Float}
use pong_pp.Client.Game.{Game, is_int}
use pong_pp.Client.Paddle.{move_local_paddle}
use pong_pp.Client.Peer.{on_peer_message, with_values, take_state, send_paddle, send_state}
use pong_pp.Client.Mirror.{not_short, tag_of}
use pong_pp.Client.Screen.{render}
use pong_pp.Client.Screen.Buffer.{render-overflow}
use pong_pp.Client.Tick.{tick, finish_tick}
use pong_pp.Client.Ball.{simulate_ball}
use pong_pp.Client.Fair.{frame, peer_message, after_frame, step, steps}

pub last_branch :
    {A : Type 0} (b c : Bool) (x y z : A)
    → b ≡ true
    → c ≡ false
    → (if not b then x else if c then y else z) ≡ z
last_branch b c x y z e e' = rw (e, e') refl

pub middle_branch :
    {A : Type 0} (b c : Bool) (x y z : A)
    → b ≡ true
    → c ≡ true
    → (if not b then x else if c then y else z) ≡ y
middle_branch b c x y z e e' = rw (e, e') refl

module _ {F : Type 0} ⦃float : Float F⦄ where
  -- The keys move a paddle and nothing else.
  unfoldable pub Untouched : Game F → Game F → Type 0
  Untouched g g' =
      (g'.role ≡ g.role) × (g'.left_score ≡ g.left_score) × (g'.right_score ≡ g.right_score)

  pub move_local_paddle-Untouched :
      (dx dy : ℤ) (g : Game F) → Untouched g (move_local_paddle dx dy g)
  unfolding move_local_paddle Untouched
  move_local_paddle-Untouched dx dy g =
      if_either (Untouched g) (is_int 0 g.role) (refl, refl, refl) (refl, refl, refl)

  guest_moved :
      (g moved : Game F)
      → g.in_game ≡ true
      → moved.role ≡ pos 1
      → render moved ≡ none
      → after_frame (
          if not g.in_game
          then (g, none, some [])
          else if is_int 0 moved.role
          then finish_tick (send_state (simulate_ball moved)) (simulate_ball moved)
          else finish_tick (send_paddle moved) moved)
        ≡ none
  guest_moved g moved playing role e =
      ap after_frame
        (last_branch g.in_game (is_int 0 moved.role) _ _ _ playing (ap (is_int 0) role))
      ∙ ap (λ drawn. after_frame (moved, some (send_paddle moved), drawn)) e

  guest_frame :
      (dx dy : ℤ) (g : Game F) (l r : ℕ)
      → g.in_game ≡ true
      → g.role ≡ pos 1
      → g.left_score ≡ pos l
      → g.right_score ≡ pos r
      → (ten_to 8 ≤ l) ⊎ (ten_to 8 ≤ r)
      → step (frame dx dy) g ≡ none
  unfolding tick Untouched
  guest_frame dx dy g l r playing role el er big =
      let (same_role, same_left, same_right) = move_local_paddle-Untouched dx dy g in
      guest_moved g (move_local_paddle dx dy g) playing (same_role ∙ role)
        (render-overflow (move_local_paddle dx dy g) l r (same_left ∙ el) (same_right ∙ er) big)

  -- The other game sends a snapshot whose numbers are below 2 ^ 31 and above -2 ^ 31, whose scores
  -- are not negative and one of whose scores has nine digits or more: the next frame of a guest
  -- that plays writes behind the end of the buffer of 8 bytes.
  pub steps-overflow :
      (guest : Game F) (bx by lx ly rx ry dx dy : ℤ) (l r : ℕ)
      → All FitsInt (bx ∷ by ∷ lx ∷ ly ∷ rx ∷ ry ∷ pos l ∷ pos r ∷ [])
      → guest.in_game ≡ true
      → guest.role ≡ pos 1
      → (ten_to 8 ≤ l) ⊎ (ten_to 8 ≤ r)
      → steps
          (peer_message (message b'S' (bx ∷ by ∷ lx ∷ ly ∷ rx ∷ ry ∷ pos l ∷ pos r ∷ []))
            ∷ frame dx dy
            ∷ [])
          (some guest)
        ≡ none
  unfolding on_peer_message with_values take_state
  steps-overflow guest bx by lx ly rx ry dx dy l r fits playing role big =
      ap (steps (frame dx dy ∷ [])) taken
      ∙ guest_frame dx dy (take_state guest values) l r playing role refl refl big
    where
      values : List ℤ
      values = bx ∷ by ∷ lx ∷ ly ∷ rx ∷ ry ∷ pos l ∷ pos r ∷ []

      taken : on_peer_message (message b'S' values) guest ≡ some (take_state guest values)
      taken =
          rw (not_short b'S' bx _, role, tag_of b'S' values, read_message-message b'S' values fits)
            refl
