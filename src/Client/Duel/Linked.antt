-- ===== src/Client/Duel/Linked.antt =====
-- What holds of the two games and of all that is on its way, after every move.
use pong_pp.Common.{
  ℕ, ◌+◌, ◌≤◌, ◌<◌, ◌≡◌, refl, ◌∙◌, ap, subst, true, arith, some, Option, List, [], ◌∷◌, if_either,
}
use pong_pp.Client.Wire.Bounds.{ten_to}
use pong_pp.Client.Float.{Float, IsFloat, HasBounds}
use pong_pp.Client.Peer.{on_peer_message}
use pong_pp.Client.Range.Tick.{Plays}
use pong_pp.Client.Duel.{
  Direction, write_msg, Duel, Move, open_host, open_guest, host_frame, guest_frame, at_guest,
  at_host, guest_took, host_took, guest_gets, host_gets, move, play, host_frames,
}
use pong_pp.Client.Duel.Messages.{mirrored, followed, guest_takes, host_takes}
use pong_pp.Client.Duel.Flight.{
  AreSnapshots, ArePaddles, AreSnapshots-ordered, AreSnapshots-later, AreSnapshots-send,
  ArePaddles-send,
}
use pong_pp.Client.Duel.Frames.{host_frame_lem, guest_frame_lem}

module _ {F : Type 0} ⦃float : Float F⦄ (laws : IsFloat float) (bounds : HasBounds float) where
  -- After `n` frames of the host.
  unfoldable pub IsLinked : ℕ → Duel F → Type 0
  IsLinked n d =
      (l : ℕ) × (r : ℕ) × (l' : ℕ) × (r' : ℕ) × Plays laws bounds 0 l r d.host
      × Plays laws bounds 1 l' r' d.guest
      × AreSnapshots laws bounds l' r' d.to_guest l r
      × ArePaddles laws bounds d.to_host
      × (l + r ≤ n)

  -- What a move leads to.
  unfoldable pub LeadsTo : ℕ → Option (Duel F) → Type 0
  LeadsTo n result = (d : Duel F) × (result ≡ some d) × IsLinked n d

  host_frame-LeadsTo :
      (dx dy : Direction) (n : ℕ) (d : Duel F)
      → n + 1 < ten_to 8
      → IsLinked n d
      → LeadsTo (n + 1) (move (host_frame dx dy) d)
  unfolding LeadsTo IsLinked
  host_frame-LeadsTo dx dy n d few (l, r, l', r', hosts, guests, shots, paddles, most) =
      let (e, (a, b, plays, la, rb, one)) =
        host_frame_lem laws bounds dx dy l r d (omega arith) hosts in
      let shots' = AreSnapshots-later laws bounds l' r' d.to_guest l r a b la rb shots in
      (
        _,
        e,
        (
          a,
          b,
          l',
          r',
          plays,
          guests,
          if_either (λ q. AreSnapshots laws bounds l' r' q a b) d.host_open
              (AreSnapshots-send laws bounds l' r' d.to_guest a b _ plays shots') shots',
          paddles,
          omega arith,
        ),
      )

  guest_frame-LeadsTo :
      (dx dy : Direction) (n : ℕ) (d : Duel F)
      → n < ten_to 8
      → IsLinked n d
      → LeadsTo n (move (guest_frame dx dy) d)
  unfolding LeadsTo IsLinked
  guest_frame-LeadsTo dx dy n d few (l, r, l', r', hosts, guests, shots, paddles, most) =
      let (below, below') = AreSnapshots-ordered laws bounds l' r' d.to_guest l r shots in
      let (e, plays) =
        guest_frame_lem laws bounds dx dy l' r' d (omega arith) (omega arith) guests in
      (
        _,
        e,
        (
          l,
          r,
          l',
          r',
          hosts,
          plays,
          shots,
          if_either (ArePaddles laws bounds) d.guest_open
              (ArePaddles-send laws bounds d.to_host l' r' _ plays paddles) paddles,
          most,
        ),
      )

  at_guest-LeadsTo :
      (n : ℕ) (d : Duel F) (queue : List (List ℕ)) (l r l' r' : ℕ)
      → n < ten_to 8
      → Plays laws bounds 0 l r d.host
      → Plays laws bounds 1 l' r' d.guest
      → AreSnapshots laws bounds l' r' queue l r
      → ArePaddles laws bounds d.to_host
      → l + r ≤ n
      → queue ≡ d.to_guest
      → LeadsTo n (guest_gets d queue)
  unfolding LeadsTo IsLinked AreSnapshots
  at_guest-LeadsTo n d [] l r l' r' few hosts guests shots paddles most e = (
    d,
    refl,
    (
      l,
      r,
      l',
      r',
      hosts,
      guests,
      subst (λ q. AreSnapshots laws bounds l' r' q l r) e shots,
      paddles,
      most,
    ),
  )
  at_guest-LeadsTo n d (text ∷ queue) l r l' r' few hosts guests (h, a, b, e, plays, ha, hb, rest)
        paddles most e' =
      let (below, below') = AreSnapshots-ordered laws bounds a b queue l r rest in
      let (taken, plays') =
        guest_takes laws bounds a b l' r' h d.guest plays (omega arith) (omega arith) guests in
      (
        record d { guest = mirrored h d.guest; to_guest = queue },
        ap (guest_took d queue) (ap (λ t. on_peer_message (write_msg t) d.guest) e ∙ taken),
        (l, r, a, b, hosts, plays', rest, paddles, most),
      )

  at_host-LeadsTo :
      (n : ℕ) (d : Duel F) (queue : List (List ℕ)) (l r l' r' : ℕ)
      → Plays laws bounds 0 l r d.host
      → Plays laws bounds 1 l' r' d.guest
      → AreSnapshots laws bounds l' r' d.to_guest l r
      → ArePaddles laws bounds queue
      → l + r ≤ n
      → queue ≡ d.to_host
      → LeadsTo n (host_gets d queue)
  unfolding LeadsTo IsLinked ArePaddles
  at_host-LeadsTo n d [] l r l' r' hosts guests shots paddles most e = (
    d,
    refl,
    (l, r, l', r', hosts, guests, shots, subst (ArePaddles laws bounds) e paddles, most),
  )
  at_host-LeadsTo n d (text ∷ queue) l r l' r' hosts guests shots (g, a, b, e, plays, rest) most
        e' =
      let (taken, plays') = host_takes laws bounds l r a b g d.host plays hosts in
      (
        record d { host = followed g d.host; to_host = queue },
        ap (host_took d queue) (ap (λ t. on_peer_message (write_msg t) d.host) e ∙ taken),
        (l, r, l', r', plays', guests, shots, rest, most),
      )

  -- The rest of the moves, behind a first one.
  then_moves :
      (n k : ℕ) (m : Move) (moves : List Move) (d : Duel F)
      → LeadsTo n (move m d)
      → ((d' : Duel F) → IsLinked n d' → LeadsTo k (play moves (some d')))
      → LeadsTo k (play (m ∷ moves) (some d))
  unfolding LeadsTo play
  then_moves n k m moves d (d', e, linked) go_on =
      let (last, e', linked') = go_on d' linked in (last, ap (play moves) e ∙ e', linked')

  pub play-LeadsTo :
      (moves : List Move) (n : ℕ) (d : Duel F)
      → n + host_frames moves < ten_to 8
      → IsLinked n d
      → LeadsTo (n + host_frames moves) (play moves (some d))
  unfolding host_frames IsLinked play LeadsTo
  play-LeadsTo [] n d few linked =
      subst (λ k. LeadsTo k (some d)) {x = n} (omega arith) (d, refl, linked)
  play-LeadsTo (open_host ∷ moves) n d few linked =
      then_moves n (n + host_frames moves) open_host moves d
        (unfold LeadsTo move in (record d { host_open = true }, refl, linked))
        (λ d'. play-LeadsTo moves n d' few)
  play-LeadsTo (open_guest ∷ moves) n d few linked =
      then_moves n (n + host_frames moves) open_guest moves d
        (unfold LeadsTo move in (record d { guest_open = true }, refl, linked))
        (λ d'. play-LeadsTo moves n d' few)
  play-LeadsTo (host_frame dx dy ∷ moves) n d few linked =
      then_moves (n + 1) _ (host_frame dx dy) moves d
        (host_frame-LeadsTo dx dy n d (omega arith) linked)
        (λ d' linked'.
          subst (λ k. LeadsTo k (play moves (some d'))) (omega arith)
            (play-LeadsTo moves (n + 1) d' (omega arith) linked'))
  play-LeadsTo (guest_frame dx dy ∷ moves) n d few linked =
      then_moves n (n + host_frames moves) (guest_frame dx dy) moves d
        (guest_frame-LeadsTo dx dy n d (omega arith) linked) (λ d'. play-LeadsTo moves n d' few)
  play-LeadsTo (at_guest ∷ moves) n d few linked =
      let (l, r, l', r', hosts, guests, shots, paddles, most) = linked in
      then_moves n (n + host_frames moves) at_guest moves d
        (unfold move in
          at_guest-LeadsTo n d d.to_guest l r l' r' (omega arith) hosts guests shots paddles most
            refl)
        (λ d'. play-LeadsTo moves n d' few)
  play-LeadsTo (at_host ∷ moves) n d few linked =
      let (l, r, l', r', hosts, guests, shots, paddles, most) = linked in
      then_moves n (n + host_frames moves) at_host moves d
        (unfold move in
          at_host-LeadsTo n d d.to_host l r l' r' hosts guests shots paddles most refl)
        (λ d'. play-LeadsTo moves n d' few)
