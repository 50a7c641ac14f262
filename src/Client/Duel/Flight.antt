-- ===== src/Client/Duel/Flight.antt =====
-- The messages that are on their way.
use pong_pp.Common.{ℕ, ◌≤◌, ◌≡◌, refl, arith, List, [], ◌∷◌, ◌++◌}
use pong_pp.Client.Float.{Float, IsFloat, HasBounds}
use pong_pp.Client.Game.{Game}
use pong_pp.Client.Peer.{send_state, send_paddle}
use pong_pp.Client.Range.Tick.{Plays}

module _ {F : Type 0} ⦃float : Float F⦄ (laws : IsFloat float) (bounds : HasBounds float) where
  -- On the way to the guest, whose scores are `l` and `r`: snapshots of a host whose scores never
  -- fall and end at `hl` and `hr`.
  unfoldable pub AreSnapshots : ℕ → ℕ → List (List ℕ) → ℕ → ℕ → Type 0
  AreSnapshots l r [] hl hr = (l ≤ hl) × (r ≤ hr)
  AreSnapshots l r (text ∷ queue) hl hr =
      (host : Game F) × (a : ℕ) × (b : ℕ) × (text ≡ send_state host)
      × Plays laws bounds 0 a b host
      × (l ≤ a)
      × (r ≤ b)
      × AreSnapshots a b queue hl hr

  -- On the way to the host: places of the guest's paddle.
  unfoldable pub ArePaddles : List (List ℕ) → Type 0
  ArePaddles [] = Unit
  ArePaddles (text ∷ queue) =
      (guest : Game F) × (a : ℕ) × (b : ℕ) × (text ≡ send_paddle guest)
      × Plays laws bounds 1 a b guest
      × ArePaddles queue

  pub AreSnapshots-ordered :
      (l r : ℕ) (queue : List (List ℕ)) (hl hr : ℕ)
      → AreSnapshots l r queue hl hr
      → (l ≤ hl) × (r ≤ hr)
  unfolding AreSnapshots
  AreSnapshots-ordered l r [] hl hr all = all
  AreSnapshots-ordered l r (text ∷ queue) hl hr (host, a, b, e, plays, ha, hb, rest) =
      let (ha', hb') = AreSnapshots-ordered a b queue hl hr rest in (omega arith, omega arith)

  -- The host's scores grow, with a new snapshot or without.
  pub AreSnapshots-later :
      (l r : ℕ) (queue : List (List ℕ)) (hl hr a b : ℕ)
      → hl ≤ a
      → hr ≤ b
      → AreSnapshots l r queue hl hr
      → AreSnapshots l r queue a b
  unfolding AreSnapshots
  AreSnapshots-later l r [] hl hr a b ha hb (h, h') = (omega arith, omega arith)
  AreSnapshots-later l r (text ∷ queue) hl hr a b ha hb (host, c, d, e, plays, hc, hd, rest) =
      (host, c, d, e, plays, hc, hd, AreSnapshots-later c d queue hl hr a b ha hb rest)

  pub AreSnapshots-send :
      (l r : ℕ) (queue : List (List ℕ)) (hl hr : ℕ) (host : Game F)
      → Plays laws bounds 0 hl hr host
      → AreSnapshots l r queue hl hr
      → AreSnapshots l r (queue ++ send_state host ∷ []) hl hr
  unfolding AreSnapshots
  AreSnapshots-send l r [] hl hr host plays (h, h') =
      (host, hl, hr, refl, plays, h, h', (omega arith, omega arith))
  AreSnapshots-send l r (text ∷ queue) hl hr host plays (h, c, d, e, plays', hc, hd, rest) =
      (h, c, d, e, plays', hc, hd, AreSnapshots-send c d queue hl hr host plays rest)

  pub ArePaddles-send :
      (queue : List (List ℕ)) (l r : ℕ) (guest : Game F)
      → Plays laws bounds 1 l r guest
      → ArePaddles queue
      → ArePaddles (queue ++ send_paddle guest ∷ [])
  unfolding ArePaddles
  ArePaddles-send [] l r guest plays all = (guest, l, r, refl, plays, tt)
  ArePaddles-send (text ∷ queue) l r guest plays (g, a, b, e, plays', rest) =
      (g, a, b, e, plays', ArePaddles-send queue l r guest plays rest)
