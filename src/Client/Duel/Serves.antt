-- ===== src/Client/Duel/Serves.antt =====
-- The counters of the serves in a match: of what a run leads to, that of the host has grown by the
-- frames of the host at most, and that of the guest not at all.
use pong_pp.Common.{
  ℕ, ◌+◌, ◌≤◌, ◌≡◌, refl, ◌∙◌, sym, subst, Option, none, some, List, [], ◌∷◌, arith,
}
use pong_pp.Common.Int.{pos}
use pong_pp.Client.Float.{Float}
use pong_pp.Client.Game.{Game}
use pong_pp.Client.Peer.{on_peer_message}
use pong_pp.Client.Screen.{Draw}
use pong_pp.Client.Tick.{tick}
use pong_pp.Client.Serves.{
  WhereSome, NoServe, OneServe, tick-OneServe, tick-NoServe, on_peer_message-NoServe,
}
use pong_pp.Client.Duel.{
  Duel, Move, open_host, open_guest, host_frame, guest_frame, at_guest, at_host, input_of,
  peer_send, write_msg, host_sent, guest_sent, host_ticked, guest_ticked, guest_took, host_took,
  guest_gets, host_gets, move, play, host_frames,
}

host_frames-cons :
    (m : Move) (moves : List Move)
    → host_frames (m ∷ []) + host_frames moves ≡ host_frames (m ∷ moves)
unfolding host_frames
host_frames-cons open_host moves = omega arith
host_frames-cons open_guest moves = omega arith
host_frames-cons (host_frame dx dy) moves = omega arith
host_frames-cons (guest_frame dx dy) moves = omega arith
host_frames-cons at_guest moves = omega arith
host_frames-cons at_host moves = omega arith

then_also :
    {A : Type 0} {P Q : A → Type 0} (o : Option A)
    → WhereSome P o
    → ((a : A) → P a → Q a)
    → WhereSome Q o
then_also none all more = tt
then_also (some a) all more = more a all

module _ {F : Type 0} ⦃float : Float F⦄ where
  -- At most `n` serves of the host, and none of the guest, which stays one.
  unfoldable pub Serves : ℕ → Duel F → Duel F → Type 0
  Serves n d d' =
      (d'.host.serve_seed ≤ d.host.serve_seed + n)
      × (d'.guest.serve_seed ≡ d.guest.serve_seed)
      × (d'.guest.role ≡ d.guest.role)

  host_sent-Serves :
      (d : Duel F) (g : Game F) (queue : Option (List (List ℕ)))
      → OneServe d.host g
      → WhereSome (Serves 1 d) (host_sent d g queue)
  unfolding Serves OneServe
  host_sent-Serves d g none one = tt
  host_sent-Serves d g (some queue) one = (one, refl, refl)

  host_ticked-Serves :
      (d : Duel F) (r : Game F × Option (List ℕ) × Option (List (Draw F)))
      → OneServe d.host r.0
      → WhereSome (Serves 1 d) (host_ticked d r)
  host_ticked-Serves d (g, sent, none) one = tt
  host_ticked-Serves d (g, sent, some drawn) one =
      host_sent-Serves d g (peer_send d.host_open sent d.to_guest) one

  guest_sent-Serves :
      (d : Duel F) (g : Game F) (queue : Option (List (List ℕ)))
      → NoServe d.guest g
      → WhereSome (Serves 0 d) (guest_sent d g queue)
  unfolding Serves NoServe
  guest_sent-Serves d g none kept = tt
  guest_sent-Serves d g (some queue) (seed, role) = (omega arith, seed, role)

  guest_ticked-Serves :
      (d : Duel F) (r : Game F × Option (List ℕ) × Option (List (Draw F)))
      → NoServe d.guest r.0
      → WhereSome (Serves 0 d) (guest_ticked d r)
  guest_ticked-Serves d (g, sent, none) kept = tt
  guest_ticked-Serves d (g, sent, some drawn) kept =
      guest_sent-Serves d g (peer_send d.guest_open sent d.to_host) kept

  guest_took-Serves :
      (d : Duel F) (queue : List (List ℕ)) (g : Option (Game F))
      → WhereSome (NoServe d.guest) g
      → WhereSome (Serves 0 d) (guest_took d queue g)
  unfolding Serves NoServe
  guest_took-Serves d queue none kept = tt
  guest_took-Serves d queue (some g) (seed, role) = (omega arith, seed, role)

  host_took-Serves :
      (d : Duel F) (queue : List (List ℕ)) (g : Option (Game F))
      → WhereSome (NoServe d.host) g
      → WhereSome (Serves 0 d) (host_took d queue g)
  unfolding Serves NoServe
  host_took-Serves d queue none kept = tt
  host_took-Serves d queue (some g) (seed, role) = (omega (arith, seed), refl, refl)

  guest_gets-Serves :
      (d : Duel F) (queue : List (List ℕ)) → WhereSome (Serves 0 d) (guest_gets d queue)
  unfolding Serves
  guest_gets-Serves d [] = (omega arith, refl, refl)
  guest_gets-Serves d (text ∷ queue) =
      guest_took-Serves d queue (on_peer_message (write_msg text) d.guest)
        (on_peer_message-NoServe (write_msg text) d.guest)

  host_gets-Serves :
      (d : Duel F) (queue : List (List ℕ)) → WhereSome (Serves 0 d) (host_gets d queue)
  unfolding Serves
  host_gets-Serves d [] = (omega arith, refl, refl)
  host_gets-Serves d (text ∷ queue) =
      host_took-Serves d queue (on_peer_message (write_msg text) d.host)
        (on_peer_message-NoServe (write_msg text) d.host)

  move-Serves :
      (m : Move) (d : Duel F)
      → d.guest.role ≡ pos 1
      → WhereSome (Serves (host_frames (m ∷ [])) d) (move m d)
  unfolding move host_frames Serves
  move-Serves open_host d role = (omega arith, refl, refl)
  move-Serves open_guest d role = (omega arith, refl, refl)
  move-Serves (host_frame dx dy) d role =
      unfold Serves in
      host_ticked-Serves d (tick (input_of dx) (input_of dy) d.host)
        (tick-OneServe (input_of dx) (input_of dy) d.host)
  move-Serves (guest_frame dx dy) d role =
      guest_ticked-Serves d (tick (input_of dx) (input_of dy) d.guest)
        (tick-NoServe (input_of dx) (input_of dy) d.guest role)
  move-Serves at_guest d role = guest_gets-Serves d d.to_guest
  move-Serves at_host d role = host_gets-Serves d d.to_host

  play-none : (moves : List Move) → play {F = F} moves none ≡ none
  unfolding play
  play-none [] = refl
  play-none (m ∷ moves) = refl

  pub play-Serves :
      (moves : List Move) (d : Duel F)
      → d.guest.role ≡ pos 1
      → WhereSome (Serves (host_frames moves) d) (play moves (some d))
  unfolding play host_frames Serves
  play-Serves [] d role = (omega arith, refl, refl)
  play-Serves (m ∷ moves) d role =
      go (move m d) (move-Serves m d role) (λ d' role'. play-Serves moves d' role')
    where
      go :
          (r : Option (Duel F))
          → WhereSome (Serves (host_frames (m ∷ [])) d) r
          → ((d' : Duel F)
              → d'.guest.role ≡ pos 1
              → WhereSome (Serves (host_frames moves) d') (play moves (some d')))
          → WhereSome (Serves (host_frames (m ∷ moves)) d) (play moves r)
      go none first rest =
          subst (WhereSome (Serves (host_frames (m ∷ moves)) d)) (sym (play-none moves)) tt
      go (some d') (seeds, seed, same_role) rest =
          then_also (play moves (some d')) (rest d' (same_role ∙ role))
            (λ d'' (seeds', seed', same_role'). (
              omega (arith, seeds, seeds', host_frames-cons m moves),
              seed' ∙ seed,
              same_role' ∙ same_role,
            ))
