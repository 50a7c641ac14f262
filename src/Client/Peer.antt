-- ===== src/Client/Peer.antt =====
-- src/client/main.cpp: the messages between the two games.
use pong_pp.Common.{
  ℕ, ◌&&◌, Option, none, some, List, [], ◌∷◌, ltb, ◌==◌, length, get_or, if◌then◌else◌,
}
use pong_pp.Common.Int.{ℤ}
use pong_pp.Client.Wire.{message, read_message}
use pong_pp.Client.Float.{Float}
use pong_pp.Client.Field.{canvas_h, paddle_h, right_x_min, right_x_max}
use pong_pp.Client.Game.{Game, is_int, clampf}

module _ {F : Type 0} ⦃float : Float F⦄ where
  open float use {lt, add, sub, mul, div, neg, num, tenths, of_int, to_int}

  -- What `peer_send` is given.
  unfoldable pub send_state : Game F → List ℕ
  send_state g = message b'S' (
      to_int g.ball_x
      ∷ to_int g.ball_y
      ∷ to_int g.left_x
      ∷ to_int g.left_y
      ∷ to_int g.right_x
      ∷ to_int g.right_y
      ∷ g.left_score
      ∷ g.right_score
      ∷ [])

  unfoldable pub send_paddle : Game F → List ℕ
  send_paddle g = message b'P' (to_int g.right_x ∷ to_int g.right_y ∷ [])

  -- The guest's paddle, from the two numbers of its message.
  unfoldable pub take_paddle : Game F → List ℤ → Game F
  unfolding clampf
  take_paddle g (x ∷ y ∷ []) =
      let new_x = clampf (of_int x) right_x_min right_x_max in
      record g {
        right_vx = sub new_x g.right_x;
        right_x = new_x;
        right_y = clampf (of_int y) (num 0) (sub canvas_h paddle_h);
      }
  take_paddle g values = g

  -- The host's state, from the eight numbers of its message; our own paddle is skipped.
  unfoldable pub take_state : Game F → List ℤ → Game F
  take_state g (bx ∷ by ∷ lx ∷ ly ∷ rx ∷ ry ∷ ls ∷ rs ∷ []) = record g {
    ball_x = of_int bx;
    ball_y = of_int by;
    left_x = of_int lx;
    left_y = of_int ly;
    left_score = ls;
    right_score = rs;
  }
  take_state g values = g

  unfoldable pub with_values : (List ℤ → Game F) → Option (List ℤ) → Option (Game F)
  with_values go_on none = none
  with_values go_on (some values) = some (go_on values)

  -- `none` if a number overflows an `int`. `msg` is what the peer wrote, `len` bytes.
  unfoldable pub on_peer_message : List ℕ → Game F → Option (Game F)
  on_peer_message msg g =
      if ltb (length msg) 2
      then some g
      else if is_int 0 g.role && get_or msg 0 0 == b'P'
      then with_values (take_paddle g) (read_message 2 msg)
      else if is_int 1 g.role && get_or msg 0 0 == b'S'
      then with_values (take_state g) (read_message 8 msg)
      else some g
