-- ===== src/Client/Mirror.antt =====
-- src/client/main.cpp: the two games together. What one sends in a frame, the other takes over.
use pong_pp.Common.{ℕ, ◌≡◌, refl, false, some, List, [], ◌∷◌, All, length, ltb, arith, get_or}
use pong_pp.Common.Int.{ℤ, pos}
use pong_pp.Client.Wire.{message, fields}
use pong_pp.Client.Wire.RoundTrip.{FitsInt, read_message-message}
use pong_pp.Client.Float.{Float}
use pong_pp.Client.Field.{canvas_h, paddle_h, right_x_min, right_x_max}
use pong_pp.Client.Game.{Game, clampf}
use pong_pp.Client.Peer.{
  send_state, send_paddle, take_paddle, take_state, with_values, on_peer_message,
}

pub not_short :
    (tag : ℕ) (z : ℤ) (values : List ℤ) → ltb (length (message tag (z ∷ values))) 2 ≡ false
unfolding message fields
not_short tag z values = ground arith

pub tag_of : (tag : ℕ) (values : List ℤ) → get_or (message tag values) 0 0 ≡ tag
unfolding message
tag_of tag values = refl

module _ {F : Type 0} ⦃float : Float F⦄ where
  open float use {sub, num, of_int, to_int}

  -- The numbers of a snapshot.
  abbrev pub snapshot : Game F → List ℤ
  snapshot g =
      to_int g.ball_x
      ∷ to_int g.ball_y
      ∷ to_int g.left_x
      ∷ to_int g.left_y
      ∷ to_int g.right_x
      ∷ to_int g.right_y
      ∷ g.left_score
      ∷ g.right_score
      ∷ []

  -- The host's snapshot, whose numbers are below 2 ^ 31 and above -2 ^ 31, sets the guest's ball
  -- and left paddle to the host's, cut to whole pixels, and its scores to the host's; nothing else
  -- of the guest's game changes, its own paddle neither.
  pub on_peer_message-send_state :
      (host guest : Game F)
      → All FitsInt (snapshot host)
      → guest.role ≡ pos 1
      → on_peer_message (send_state host) guest
        ≡ some (record guest {
          ball_x = of_int (to_int host.ball_x);
          ball_y = of_int (to_int host.ball_y);
          left_x = of_int (to_int host.left_x);
          left_y = of_int (to_int host.left_y);
          left_score = host.left_score;
          right_score = host.right_score;
        })
  unfolding on_peer_message send_state with_values take_state
  on_peer_message-send_state host guest fits role =
      rw
        (
          not_short b'S' (to_int host.ball_x) _,
          role,
          tag_of b'S' (snapshot host),
          read_message-message b'S' (snapshot host) fits,
        )
        refl

  -- The guest's paddle, whose numbers are below 2 ^ 31 and above -2 ^ 31, becomes the host's right
  -- paddle, cut to whole pixels and to the bounds of its half, and the host notes how far it moved;
  -- nothing else of the host's game changes.
  pub on_peer_message-send_paddle :
      (host guest : Game F)
      → All FitsInt (to_int guest.right_x ∷ to_int guest.right_y ∷ [])
      → host.role ≡ pos 0
      → on_peer_message (send_paddle guest) host
        ≡ some (record host {
          right_vx =
              sub (clampf (of_int (to_int guest.right_x)) right_x_min right_x_max) host.right_x;
          right_x = clampf (of_int (to_int guest.right_x)) right_x_min right_x_max;
          right_y = clampf (of_int (to_int guest.right_y)) (num 0) (sub canvas_h paddle_h);
        })
  unfolding on_peer_message send_paddle with_values take_paddle
  on_peer_message-send_paddle host guest fits role =
      rw
        (
          not_short b'P' (to_int guest.right_x) _,
          role,
          tag_of b'P' (to_int guest.right_x ∷ to_int guest.right_y ∷ []),
          read_message-message b'P' (to_int guest.right_x ∷ to_int guest.right_y ∷ []) fits,
        )
        refl
