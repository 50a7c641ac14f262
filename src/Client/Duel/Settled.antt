-- ===== src/Client/Duel/Settled.antt =====
-- A frame of each game, and all that is on its way has arrived: both show the same match.
use pong_pp.Common.{
  ℕ, suc, ◌+◌, ◌<◌, ◌≡◌, refl, ◌∙◌, some, List, [], ◌∷◌, ◌++◌, length, replicate, append-nil, arith,
  subst, ap, sym, true, Bool, if◌then◌else◌,
}
use pong_pp.Client.Wire.Bounds.{ten_to}
use pong_pp.Client.Float.{Float, IsFloat, HasBounds}
use pong_pp.Client.Game.{Game}
use pong_pp.Client.Ball.{simulate_ball}
use pong_pp.Client.Paddle.{move_local_paddle}
use pong_pp.Client.Peer.{send_state, send_paddle}
use pong_pp.Client.Duel.{
  Direction, input_of, Duel, Move, host_frame, guest_frame, at_guest, at_host, play, kickoff,
  host_frames,
}
use pong_pp.Client.Duel.Flight.{AreSnapshots-ordered, AreSnapshots-later}
use pong_pp.Client.Duel.Linked.{IsLinked, LeadsTo}
use pong_pp.Client.Duel.Frames.{host_frame_lem, guest_frame_lem}
use pong_pp.Client.Duel.Drain.{
  Mirrors, Follows, Mirrors-SameBall, Follows-SamePaddle, one_more, drain_guest, drain_host,
}
use pong_pp.Client.Duel.Sound.{linked_play}

module _ {F : Type 0} ⦃float : Float F⦄ where
  open float use {num, sub, of_int, to_int}

  -- All that is on its way, and what the next frames send.
  abbrev pub settle : Direction → Direction → Direction → Direction → Duel F → List Move
  settle a b c e d =
      host_frame a b
      ∷ guest_frame c e
      ∷ (replicate (suc (length d.to_guest)) at_guest ++ replicate (suc (length d.to_host)) at_host)

  module _ (laws : IsFloat float) (bounds : HasBounds float) where
    then_branch : {A : Type 0} (b : Bool) (x y : A) → b ≡ true → (if b then x else y) ≡ x
    then_branch b x y h = rw h refl

    -- The frames of both games, sent through the open channel, and the arrivals.
    settle_lem :
        (n : ℕ) (a b c e : Direction) (d : Duel F)
        → n + 1 < ten_to 8
        → d.host_open ≡ true
        → d.guest_open ≡ true
        → IsLinked laws bounds n d
        → (d' : Duel F) × (play (settle a b c e d) (some d) ≡ some d')
          × (d'.to_guest ≡ [])
          × (d'.to_host ≡ [])
          × Mirrors d'.host d'.guest
          × Follows d'.guest d'.host
    unfolding IsLinked play
    settle_lem n a b c e d few host_opened guest_opened
          (l, r, l', r', hosts, guests, shots, paddles, most) =
        let (below, below') = AreSnapshots-ordered laws bounds l' r' d.to_guest l r shots in
        let arrivals =
          replicate (suc (length d.to_guest)) at_guest
          ++ replicate (suc (length d.to_host)) at_host in
        let (moved, (hl, hr, plays, hl', hr', one)) =
          host_frame_lem laws bounds a b l r d (omega arith) hosts in
        let host = simulate_ball (move_local_paddle (input_of a) (input_of b) d.host) in
        let guest = move_local_paddle (input_of c) (input_of e) d.guest in
        let d₁ : Duel F = record d { host = host; to_guest = d.to_guest ++ send_state host ∷ [] } in
        let (moved', plays') =
          guest_frame_lem laws bounds c e l' r' d₁ (omega arith) (omega arith) guests in
        let d₂ : Duel F = record d₁ {
          guest = guest;
          to_host = d.to_host ++ send_paddle guest ∷ [];
        } in
        let (g, steps, shows, same) =
          drain_guest laws bounds d.to_guest l' r' l' r' hl hr host d₂
            (replicate (suc (length d.to_host)) at_host)
            (AreSnapshots-later laws bounds l' r' d.to_guest l r hl hr hl' hr' shots) plays
            (omega arith) (omega arith) plays' refl in
        let (h, steps', follows, same_ball) =
          drain_host laws bounds d.to_host hl hr l' r' guest
            (record d₂ { guest = g; to_guest = [] }) [] paddles plays' plays refl in
        (
          record d₂ { host = h; guest = g; to_guest = []; to_host = [] },
          one_more laws bounds (host_frame a b) (guest_frame c e ∷ arrivals) d d₁ (
                moved
                ∙ ap (λ q. some (record d { host = host; to_guest = q }))
                    (then_branch d.host_open _ _ host_opened))
              ∙ one_more laws bounds (guest_frame c e) arrivals d₁ d₂ (
                  moved'
                  ∙ ap (λ q. some (record d₁ { guest = guest; to_host = q }))
                      (then_branch d.guest_open _ _ guest_opened))
              ∙ steps
              ∙ ap (λ moves. play moves (some (record d₂ { guest = g; to_guest = [] })))
                  (sym (append-nil (replicate (suc (length d.to_host)) at_host)))
              ∙ steps',
          refl,
          refl,
          Mirrors-SameBall host h g shows same_ball,
          Follows-SamePaddle guest g h follows same,
        )

    -- On floats that obey the laws of `Client.Float`, whatever happened from the kickoff on, with
    -- fewer than 10 ^ 8 frames of the host: if the channel is open at both ends, then a frame of each
    -- game and the arrival of all that is on its way have a result, in which both queues are empty,
    -- the guest shows the host's ball and left paddle cut to whole pixels and its scores, and the
    -- host has the guest's paddle cut to whole pixels and to its half. (The counters of the serves
    -- are not bounded here.)
    pub settled :
        (moves : List Move) (h g : Game F) (d : Duel F) (a b c e : Direction)
        → host_frames moves + 1 < ten_to 8
        → play moves (some (kickoff h g)) ≡ some d
        → d.host_open ≡ true
        → d.guest_open ≡ true
        → (d' : Duel F) × (play (settle a b c e d) (some d) ≡ some d')
          × (d'.to_guest ≡ [])
          × (d'.to_host ≡ [])
          × Mirrors d'.host d'.guest
          × Follows d'.guest d'.host
    unfolding LeadsTo
    settled moves h g d a b c e few reached host_opened guest_opened =
        let (d₀, e₀, linked) = linked_play laws bounds moves h g (omega arith) in
        let same : d₀ ≡ d = some_same d₀ d (sym e₀ ∙ reached) in
        settle_lem (host_frames moves) a b c e d few host_opened guest_opened
          (subst (IsLinked laws bounds (host_frames moves)) same linked)
      where
        some_same : (x y : Duel F) → some x ≡ some y → x ≡ y
        some_same x y h = cc
