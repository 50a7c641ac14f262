-- ===== src/Client/Duel/Sound.antt =====
-- The two games from the kickoff on, whatever the players do and however long the messages take.
use pong_pp.Common.{
  ℕ, ◌+◌, ◌^◌, ◌≤◌, ◌<◌, ◌≡◌, refl, some, List, [], ◌∷◌, All, length, arith, subst, sym,
}
use pong_pp.Client.Wire.Bounds.{ten_to}
use pong_pp.Client.Float.{Float, IsFloat, HasBounds}
use pong_pp.Client.Game.{Game, start_game, reset_ball, home}
use pong_pp.Client.Range.Frame.{start_game-Fits}
use pong_pp.Client.Range.Tick.{Plays}
use pong_pp.Client.Duel.{Duel, Move, play, kickoff, host_frames}
use pong_pp.Client.Duel.Messages.{length-send_state, length-send_paddle}
use pong_pp.Client.Duel.Flight.{AreSnapshots, AreSnapshots-ordered, ArePaddles}
use pong_pp.Client.Serves.{WhereSome}
use pong_pp.Client.Duel.Serves.{Serves, play-Serves}
use pong_pp.Client.Duel.Linked.{IsLinked, LeadsTo, play-LeadsTo}

abbrev pub AreShort : List (List ℕ) → Type 0
AreShort = All (λ text. length text ≤ 97)

module _ {F : Type 0} ⦃float : Float F⦄ (laws : IsFloat float) (bounds : HasBounds float) where
  kickoff-IsLinked : (h g : Game F) → IsLinked laws bounds 0 (kickoff h g)
  unfolding IsLinked AreSnapshots ArePaddles Plays start_game reset_ball home
  kickoff-IsLinked h g = (
    0,
    0,
    0,
    0,
    (start_game-Fits laws bounds 0 h, refl, refl),
    (start_game-Fits laws bounds 1 g, refl, refl),
    (omega arith, omega arith),
    tt,
    omega arith,
  )

  pub linked_play :
      (moves : List Move) (h g : Game F)
      → host_frames moves < ten_to 8
      → LeadsTo laws bounds (host_frames moves) (play moves (some (kickoff h g)))
  linked_play moves h g few =
      subst (λ k. LeadsTo laws bounds k (play moves (some (kickoff h g))))
        {x = 0 + host_frames moves} (omega arith)
        (play-LeadsTo laws bounds moves 0 (kickoff h g) (omega arith) (kickoff-IsLinked h g))

  AreSnapshots-AreShort :
      (l r : ℕ) (queue : List (List ℕ)) (hl hr : ℕ)
      → hl < ten_to 8
      → hr < ten_to 8
      → AreSnapshots laws bounds l r queue hl hr
      → AreShort queue
  unfolding AreSnapshots
  AreSnapshots-AreShort l r [] hl hr few few' all = tt
  AreSnapshots-AreShort l r (text ∷ queue) hl hr few few' (host, a, b, e, plays, ha, hb, rest) =
      let (below, below') = AreSnapshots-ordered laws bounds a b queue hl hr rest in
      (
        subst (λ t. length t ≤ 97) (sym e)
            (length-send_state laws bounds 0 a b host plays (omega arith) (omega arith)),
        AreSnapshots-AreShort a b queue hl hr few few' rest,
      )

  ArePaddles-AreShort : (queue : List (List ℕ)) → ArePaddles laws bounds queue → AreShort queue
  unfolding ArePaddles
  ArePaddles-AreShort [] all = tt
  ArePaddles-AreShort (text ∷ queue) (guest, a, b, e, plays, rest) = (
    subst (λ t. length t ≤ 97) (sym e) (length-send_paddle laws bounds 1 a b guest plays),
    ArePaddles-AreShort queue rest,
  )

  -- The counters of the serves after a run.
  play-serve_seed :
      (moves : List Move) (h g : Game F) (d : Duel F)
      → play moves (some (kickoff h g)) ≡ some d
      → (d.host.serve_seed ≤ h.serve_seed + 1 + host_frames moves)
        × (d.guest.serve_seed ≡ g.serve_seed + 1)
  unfolding start_game reset_ball home Serves
  play-serve_seed moves h g d e =
      let (host, guest, role) =
        subst (WhereSome (Serves (host_frames moves) (kickoff h g))) e
          (play-Serves moves (kickoff h g) refl) in
      (omega (arith, host), guest)

  -- On floats that obey the laws of `Client.Float`, from the kickoff on and for any order of frames,
  -- keys, the opening of the channel and arrivals of messages, with fewer than 10 ^ 8 frames of the
  -- host, and with counters of serves that the kickoff and those frames do not bring to 2 ^ 31: the
  -- run has a result, which means that each number that was read is an `int`, each text fitted
  -- `send_buf`, the scores fitted their buffer and each drawing is complete. The counters that the
  -- model does not bound stay in an `int`, that of the host's serves below 2 ^ 31, that of the
  -- guest's where the kickoff left it, and the scores, of which the sum of the host's is not above
  -- the number of its frames and the guest's are not above the host's. Both games stay in play with
  -- small numbers, and no message on its way is longer than 97 bytes.
  pub play_lem :
      (moves : List Move) (h g : Game F)
      → host_frames moves < ten_to 8
      → h.serve_seed + 1 + host_frames moves < 2 ^ 31
      → g.serve_seed + 1 < 2 ^ 31
      → (d : Duel F) × (l : ℕ) × (r : ℕ) × (l' : ℕ) × (r' : ℕ) × (play moves (some (kickoff h g))
          ≡ some d)
        × Plays laws bounds 0 l r d.host
        × Plays laws bounds 1 l' r' d.guest
        × (d.host.serve_seed < 2 ^ 31)
        × (d.guest.serve_seed ≡ g.serve_seed + 1)
        × (l + r ≤ host_frames moves)
        × (l' ≤ l)
        × (r' ≤ r)
        × AreShort d.to_guest
        × AreShort d.to_host
  unfolding LeadsTo IsLinked
  play_lem moves h g few serves serves' =
      let (d, e, (l, r, l', r', hosts, guests, shots, paddles, most)) = linked_play moves h g few in
      let (below, below') = AreSnapshots-ordered laws bounds l' r' d.to_guest l r shots in
      let (seeds, seed) = play-serve_seed moves h g d e in
      (
        d,
        l,
        r,
        l',
        r',
        e,
        hosts,
        guests,
        omega (arith, seeds, serves),
        seed,
        most,
        below,
        below',
        AreSnapshots-AreShort l' r' d.to_guest l r (omega arith) (omega arith) shots,
        ArePaddles-AreShort d.to_host paddles,
      )
