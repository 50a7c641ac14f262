-- ===== src/Client/Fair/Steps.antt =====
-- Every call from the browser keeps the game fair.
use pong_pp.Common.{
  if_either, if_true, ℕ, ◌≡◌, refl, ◌∙◌, ap, sym, subst, Bool, true, false, not, ◌&&◌, ◌⊎◌, inl,
  inr, Bool-cases, Option, none, some, List, [], ◌∷◌, ltb, arith, ◌==◌, if◌then◌else◌, get_or,
  length,
}
use pong_pp.Common.Int.{ℤ, pos, negsuc}
use pong_pp.Client.Wire.{read_message}
use pong_pp.Client.Float.{Float, IsFloat}
use pong_pp.Client.Game.{Game, is_int, reset_ball, home, init, start_game, stop_game}
use pong_pp.Client.Ball.{simulate_ball}
use pong_pp.Client.Paddle.{moved_x, moved_y, move_local_paddle}
use pong_pp.Client.Peer.{
  take_paddle, take_state, with_values, on_peer_message, send_state, send_paddle,
}
use pong_pp.Client.Screen.{Draw, render}
use pong_pp.Client.Tick.{tick, finish_tick}
use pong_pp.Client.Fair.{
  Event, start, stop, frame, peer_message, after_frame, step, steps, InField, IsFair, serve-Within,
  clampf_left, clampf_right, clampf_y, home_left, home_right,
}
use pong_pp.Client.Fair.Ball.{Keeps, Keeps-simulate_ball}

module _ {F : Type 0} ⦃float : Float F⦄ (laws : IsFloat float) where
  open float use {lt, add, sub, mul, div, neg, num, of_int}

  one_or_minus_one :
      (b : Bool)
      → ((if b then pos 1 else negsuc 0) ≡ pos 1) ⊎ ((if b then pos 1 else negsuc 0) ≡ negsuc 0)
  one_or_minus_one true = inl refl
  one_or_minus_one false = inr refl

  pub init-IsFair : (g : Game F) → IsFair (init g)
  unfolding IsFair init home reset_ball
  init-IsFair g = ((λ host. home_left laws), home_right laws, serve-Within laws (pos 1) (inl refl))

  start_game-IsFair : (r : ℤ) (g : Game F) → IsFair (start_game r g)
  unfolding IsFair start_game home reset_ball
  start_game-IsFair r g = (
    (λ host. home_left laws),
    home_right laws,
    serve-Within laws _ (one_or_minus_one (is_int 0 r)),
  )

  move_local_paddle-IsFair :
      (dx dy : ℤ) (g : Game F) → IsFair g → IsFair (move_local_paddle dx dy g)
  unfolding IsFair InField move_local_paddle moved_x moved_y
  move_local_paddle-IsFair dx dy g (left, right, speed) = elim (Bool-cases (is_int 0 g.role)) [
    | inl host ↦ rw host ((λ e. (clampf_left laws _, clampf_y laws _)), right, speed)
    | inr guest ↦ rw guest (
      (λ e. absurd (let same : is_int 0 g.role ≡ true = e in cc)),
      (clampf_right laws _, clampf_y laws _),
      speed,
    )
  ]

  simulate_ball-IsFair : (g : Game F) → IsFair g → IsFair (simulate_ball g)
  unfolding IsFair Keeps
  simulate_ball-IsFair g (left, right, speed) =
      let (role, lx, ly, rx, ry, keep) = Keeps-simulate_ball laws g in
      (
        (λ host. rw (lx, ly) (left (ap (is_int 0) (sym role) ∙ host))),
        rw (rx, ry) right,
        keep speed,
      )

  frame_over :
      (g : Game F) (g' : Game F) (msg : List ℕ)
      → IsFair g
      → after_frame (finish_tick msg g) ≡ some g'
      → IsFair g'
  frame_over g g' msg fair e = go (render g) e
    where
      go : (d : Option (List (Draw F))) → after_frame (g, some msg, d) ≡ some g' → IsFair g'
      go none e = cc
      go (some d) e = subst IsFair (let same : g ≡ g' = cc in same) fair

  tick-IsFair :
      (dx dy : ℤ) (g g' : Game F) → IsFair g → after_frame (tick dx dy g) ≡ some g' → IsFair g'
  unfolding tick
  tick-IsFair dx dy g g' fair e =
      if_either (λ t. (g' : Game F) → after_frame t ≡ some g' → IsFair g') (not g.in_game)
        (λ g' e. subst IsFair (same g g' e) fair)
        (if_either (λ t. (g' : Game F) → after_frame t ≡ some g' → IsFair g') (is_int 0 moved.role)
          (λ g' e.
            frame_over (simulate_ball moved) g' (send_state (simulate_ball moved))
              (simulate_ball-IsFair moved moved_fair) e)
          (λ g' e. frame_over moved g' (send_paddle moved) moved_fair e))
        g' e
    where
      moved : Game F
      moved = move_local_paddle dx dy g

      moved_fair : IsFair moved
      moved_fair = move_local_paddle-IsFair dx dy g fair

      same : (a b : Game F) → some a ≡ some b → a ≡ b
      same a b e = cc

  take_paddle-IsFair : (g : Game F) (values : List ℤ) → IsFair g → IsFair (take_paddle g values)
  unfolding IsFair InField take_paddle
  take_paddle-IsFair g (x ∷ y ∷ []) (left, right, speed) =
      (left, (clampf_right laws _, clampf_y laws _), speed)
  take_paddle-IsFair g [] fair = fair
  take_paddle-IsFair g (x ∷ []) fair = fair
  take_paddle-IsFair g (x ∷ y ∷ z ∷ values) fair = fair

  guest_only : (r : ℤ) → is_int 1 r ≡ true → is_int 0 r ≡ true → ⊥
  guest_only (pos n) e e' = ground arith
  guest_only (negsuc n) e e' = cc

  take_state-IsFair :
      (g : Game F) (values : List ℤ)
      → is_int 1 g.role ≡ true
      → IsFair g
      → IsFair (take_state g values)
  unfolding IsFair take_state
  take_state-IsFair g (a ∷ b ∷ c ∷ d ∷ x ∷ y ∷ l ∷ r ∷ []) guest (left, right, speed) =
      ((λ host. absurd (guest_only g.role guest host)), right, speed)
  take_state-IsFair g values guest fair = fair

  abbrev FairResult : Option (Game F) → Type 0
  FairResult r = (g' : Game F) → r ≡ some g' → IsFair g'

  unchanged : (g : Game F) → IsFair g → FairResult (some g)
  unchanged g fair g' e = subst IsFair (let same : g ≡ g' = cc in same) fair

  given :
      (change : List ℤ → Game F)
      → ((values : List ℤ) → IsFair (change values))
      → (r : Option (List ℤ)) → FairResult (with_values change r)
  unfolding with_values
  given change fair none g' e = cc
  given change fair (some values) g' e = unchanged (change values) (fair values) g' e

  first_true : (a b : Bool) → (a && b) ≡ true → a ≡ true
  first_true true b e = refl
  first_true false b e = e

  on_peer_message-IsFair :
      (msg : List ℕ) (g g' : Game F) → IsFair g → on_peer_message msg g ≡ some g' → IsFair g'
  unfolding on_peer_message
  on_peer_message-IsFair msg g g' fair e =
      if_either FairResult (ltb (length msg) 2) (unchanged g fair)
        (if_either FairResult (is_int 0 g.role && get_or msg 0 0 == b'P')
          (given (take_paddle g) (λ values. take_paddle-IsFair g values fair) (read_message 2 msg))
          (if_true FairResult (is_int 1 g.role && get_or msg 0 0 == b'S')
            (λ t.
              given (take_state g)
                (λ values. take_state-IsFair g values (first_true (is_int 1 g.role) _ t) fair)
                (read_message 8 msg))
            (unchanged g fair)))
        g' e

  step-IsFair : (e : Event) (g : Game F) → IsFair g → FairResult (step e g)
  step-IsFair (start r) g fair = unchanged (start_game r g) (start_game-IsFair r g)
  step-IsFair stop g fair = unchanged (stop_game g) (unfold IsFair stop_game in fair)
  step-IsFair (frame dx dy) g fair = λ g' e. tick-IsFair dx dy g g' fair e
  step-IsFair (peer_message msg) g fair = λ g' e. on_peer_message-IsFair msg g g' fair e

  -- On floats that obey the laws of `Client.Float`, after `init` and any calls from the browser,
  -- with any keys and any messages of the peer, as long as the source's behaviour is defined: the
  -- guest's paddle, and on the host the host's paddle too, are neither above nor below the bounds
  -- of their half of the field and of its height, and the ball's horizontal speed is not above 14
  -- either way.
  pub steps-IsFair :
      (events : List Event) (g g' : Game F) → steps events (some (init g)) ≡ some g' → IsFair g'
  steps-IsFair events g g' e = go events (some (init g)) (unchanged (init g) (init-IsFair g)) g' e
    where
      go : (events : List Event) (r : Option (Game F)) → FairResult r → FairResult (steps events r)
      go [] r fair = fair
      go (e ∷ events) none fair = fair
      go (e ∷ events) (some g) fair = go events (step e g) (step-IsFair e g (fair g refl))
