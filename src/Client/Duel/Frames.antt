-- ===== src/Client/Duel/Frames.antt =====
-- A frame of either game in a match.
use pong_pp.Common.{ℕ, ◌+◌, ◌≤◌, ◌<◌, ◌≡◌, ◌∙◌, ap, arith, some, [], ◌∷◌, ◌++◌, if◌then◌else◌}
use pong_pp.Common.Int.{magnitude}
use pong_pp.Client.Wire.Bounds.{ten_to}
use pong_pp.Client.Float.{Float, IsFloat, HasBounds}
use pong_pp.Client.Ball.{simulate_ball}
use pong_pp.Client.Paddle.{move_local_paddle}
use pong_pp.Client.Peer.{send_state, send_paddle}
use pong_pp.Client.Range.Tick.{Plays, host_tick, guest_tick}
use pong_pp.Client.Duel.{
  Direction, back, still, forth, input_of, Duel, host_frame, guest_frame, host_ticked, guest_ticked,
  host_sent, guest_sent, move,
}
use pong_pp.Client.Duel.Messages.{length-send_state, length-send_paddle, peer_send-short}

pub input-small : (d : Direction) → magnitude (input_of d) ≤ 1
input-small back = omega arith
input-small still = omega arith
input-small forth = omega arith

module _ {F : Type 0} ⦃float : Float F⦄ (laws : IsFloat float) (bounds : HasBounds float) where
  pub host_frame_lem :
      (dx dy : Direction) (l r : ℕ) (d : Duel F)
      → l + r + 1 < ten_to 8
      → Plays laws bounds 0 l r d.host
      → (let g = simulate_ball (move_local_paddle (input_of dx) (input_of dy) d.host) in
          let queue = if d.host_open then d.to_guest ++ send_state g ∷ [] else d.to_guest in
          (move (host_frame dx dy) d ≡ some (record d { host = g; to_guest = queue }))
          × ((a : ℕ) × (b : ℕ) × Plays laws bounds 0 a b g
              × (l ≤ a)
              × (r ≤ b)
              × (a + b ≤ l + r + 1)))
  unfolding move
  host_frame_lem dx dy l r d few hosts =
      let (a, b, ds, e, plays, la, rb, one) =
        host_tick laws bounds (input_of dx) (input_of dy) l r d.host (input-small dx)
          (input-small dy) few hosts in
      let g = simulate_ball (move_local_paddle (input_of dx) (input_of dy) d.host) in
      (
        ap (host_ticked d) e
            ∙ ap (host_sent d g) (
                peer_send-short d.host_open (send_state g) d.to_guest
                  (length-send_state laws bounds 0 a b g plays (omega arith) (omega arith))),
        (a, b, plays, la, rb, one),
      )

  pub guest_frame_lem :
      (dx dy : Direction) (l r : ℕ) (d : Duel F)
      → l < ten_to 8
      → r < ten_to 8
      → Plays laws bounds 1 l r d.guest
      → (let g = move_local_paddle (input_of dx) (input_of dy) d.guest in
          let queue = if d.guest_open then d.to_host ++ send_paddle g ∷ [] else d.to_host in
          (move (guest_frame dx dy) d ≡ some (record d { guest = g; to_host = queue }))
          × Plays laws bounds 1 l r g)
  unfolding move
  guest_frame_lem dx dy l r d hl hr guests =
      let (ds, e, plays) =
        guest_tick laws bounds (input_of dx) (input_of dy) l r d.guest (input-small dx)
          (input-small dy) hl hr guests in
      let g = move_local_paddle (input_of dx) (input_of dy) d.guest in
      (
        ap (guest_ticked d) e
            ∙ ap (guest_sent d g) (
                peer_send-short d.guest_open (send_paddle g) d.to_host
                  (length-send_paddle laws bounds 1 l r g plays)),
        plays,
      )
