-- ===== src/Client/Duel/Drain.antt =====
-- The messages on their way to a game arrive, one after the other.
use pong_pp.Common.{
  ℕ, suc, ◌<◌, ◌≡◌, refl, ◌∙◌, some, List, [], ◌∷◌, ◌++◌, length, replicate, arith, ap, sym,
}
use pong_pp.Client.Wire.Bounds.{ten_to}
use pong_pp.Client.Float.{Float, IsFloat, HasBounds}
use pong_pp.Client.Field.{canvas_h, paddle_h, right_x_min, right_x_max}
use pong_pp.Client.Game.{Game, clampf}
use pong_pp.Client.Peer.{send_state, send_paddle, on_peer_message}
use pong_pp.Client.Range.Tick.{Plays}
use pong_pp.Client.Duel.{
  write_msg, Duel, Move, at_guest, at_host, guest_took, host_took, guest_gets, host_gets, move,
  play,
}
use pong_pp.Client.Duel.Messages.{mirrored, followed, guest_takes, host_takes}
use pong_pp.Client.Duel.Flight.{AreSnapshots, AreSnapshots-ordered, ArePaddles}

module _ {F : Type 0} ⦃float : Float F⦄ where
  open float use {num, sub, of_int, to_int}

  -- The guest shows the host's ball and left paddle, to the pixel, and its scores.
  unfoldable pub Mirrors : Game F → Game F → Type 0
  Mirrors host guest =
      (guest.ball_x ≡ of_int (to_int host.ball_x))
      × (guest.ball_y ≡ of_int (to_int host.ball_y))
      × (guest.left_x ≡ of_int (to_int host.left_x))
      × (guest.left_y ≡ of_int (to_int host.left_y))
      × (guest.left_score ≡ host.left_score)
      × (guest.right_score ≡ host.right_score)

  -- The host has the guest's paddle where the guest has it, to the pixel and in its half.
  unfoldable pub Follows : Game F → Game F → Type 0
  Follows guest host =
      (host.right_x ≡ clampf (of_int (to_int guest.right_x)) right_x_min right_x_max)
      × (host.right_y ≡ clampf (of_int (to_int guest.right_y)) (num 0) (sub canvas_h paddle_h))

  abbrev pub SamePaddle : Game F → Game F → Type 0
  SamePaddle g g' = (g'.right_x ≡ g.right_x) × (g'.right_y ≡ g.right_y)

  abbrev pub SameBall : Game F → Game F → Type 0
  SameBall h h' =
      (h'.ball_x ≡ h.ball_x)
      × (h'.ball_y ≡ h.ball_y)
      × (h'.left_x ≡ h.left_x)
      × (h'.left_y ≡ h.left_y)
      × (h'.left_score ≡ h.left_score)
      × (h'.right_score ≡ h.right_score)

  pub Mirrors-SameBall : (h h' g : Game F) → Mirrors h g → SameBall h h' → Mirrors h' g
  unfolding Mirrors
  Mirrors-SameBall h h' g (sx, sy, slx, sly, sl, sr) (bx, by, lx, ly, ls, rs) = (
    sx ∙ ap (λ x. of_int (to_int x)) (sym bx),
    sy ∙ ap (λ x. of_int (to_int x)) (sym by),
    slx ∙ ap (λ x. of_int (to_int x)) (sym lx),
    sly ∙ ap (λ x. of_int (to_int x)) (sym ly),
    sl ∙ sym ls,
    sr ∙ sym rs,
  )

  pub Follows-SamePaddle : (g g' h : Game F) → Follows g h → SamePaddle g g' → Follows g' h
  unfolding Follows
  Follows-SamePaddle g g' h (fx, fy) (px, py) = (
    fx ∙ ap (λ x. clampf (of_int (to_int x)) right_x_min right_x_max) (sym px),
    fy ∙ ap (λ y. clampf (of_int (to_int y)) (num 0) (sub canvas_h paddle_h)) (sym py),
  )

  module _ (laws : IsFloat float) (bounds : HasBounds float) where
    pub one_more :
        (m : Move) (moves : List Move) (d d' : Duel F)
        → move m d ≡ some d'
        → play (m ∷ moves) (some d) ≡ play moves (some d')
    unfolding play
    one_more m moves d d' e = ap (play moves) e

    -- The guest takes all snapshots; the last one is `host`'s.
    pub drain_guest :
        (queue : List (List ℕ)) (l r l' r' hl hr : ℕ) (host : Game F) (d : Duel F)
        (rest : List Move)
        → AreSnapshots laws bounds l r queue hl hr
        → Plays laws bounds 0 hl hr host
        → hl < ten_to 8
        → hr < ten_to 8
        → Plays laws bounds 1 l' r' d.guest
        → d.to_guest ≡ queue ++ send_state host ∷ []
        → (g : Game F) × (play (replicate (suc (length queue)) at_guest ++ rest) (some d)
            ≡ play rest (some (record d { guest = g; to_guest = [] })))
          × Mirrors host g
          × SamePaddle d.guest g
    unfolding AreSnapshots Mirrors move
    drain_guest [] l r l' r' hl hr host d rest all plays few few' guests e =
        let (taken, plays') =
          guest_takes laws bounds hl hr l' r' host d.guest plays few few' guests in
        (
          mirrored host d.guest,
          one_more at_guest rest d _ (ap (guest_gets d) e ∙ ap (guest_took d []) taken),
          (refl, refl, refl, refl, refl, refl),
          (refl, refl),
        )
    drain_guest (text ∷ queue) l r l' r' hl hr host d rest (h, a, b, e', plays', ha, hb, all) plays
          few few' guests e =
        let (below, below') = AreSnapshots-ordered laws bounds a b queue hl hr all in
        let (taken, next) =
          guest_takes laws bounds a b l' r' h d.guest plays' (omega arith) (omega arith) guests in
        let d' : Duel F = record d {
          guest = mirrored h d.guest;
          to_guest = queue ++ send_state host ∷ [];
        } in
        let (g, steps, shows, same) =
          drain_guest queue a b a b hl hr host d' rest all plays few few' next refl in
        (
          g,
          one_more at_guest (replicate (suc (length queue)) at_guest ++ rest) d d' (
                ap (guest_gets d) e
                ∙ ap (guest_took d (queue ++ send_state host ∷ []))
                    (ap (λ t. on_peer_message (write_msg t) d.guest) e' ∙ taken))
              ∙ steps,
          shows,
          same,
        )

    -- The host takes all places of the paddle; the last one is `guest`'s.
    pub drain_host :
        (queue : List (List ℕ)) (l r l' r' : ℕ) (guest : Game F) (d : Duel F) (rest : List Move)
        → ArePaddles laws bounds queue
        → Plays laws bounds 1 l' r' guest
        → Plays laws bounds 0 l r d.host
        → d.to_host ≡ queue ++ send_paddle guest ∷ []
        → (h : Game F) × (play (replicate (suc (length queue)) at_host ++ rest) (some d)
            ≡ play rest (some (record d { host = h; to_host = [] })))
          × Follows guest h
          × SameBall d.host h
    unfolding ArePaddles Follows move
    drain_host [] l r l' r' guest d rest all plays hosts e =
        let (taken, plays') = host_takes laws bounds l r l' r' guest d.host plays hosts in
        (
          followed guest d.host,
          one_more at_host rest d _ (ap (host_gets d) e ∙ ap (host_took d []) taken),
          (refl, refl),
          (refl, refl, refl, refl, refl, refl),
        )
    drain_host (text ∷ queue) l r l' r' guest d rest (g, a, b, e', plays', all) plays hosts e =
        let (taken, next) = host_takes laws bounds l r a b g d.host plays' hosts in
        let d' : Duel F = record d {
          host = followed g d.host;
          to_host = queue ++ send_paddle guest ∷ [];
        } in
        let (h, steps, follows, same) =
          drain_host queue l r l' r' guest d' rest all plays next refl in
        (
          h,
          one_more at_host (replicate (suc (length queue)) at_host ++ rest) d d' (
                ap (host_gets d) e
                ∙ ap (host_took d (queue ++ send_paddle guest ∷ []))
                    (ap (λ t. on_peer_message (write_msg t) d.host) e' ∙ taken))
              ∙ steps,
          follows,
          same,
        )
