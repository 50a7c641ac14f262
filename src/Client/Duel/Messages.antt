-- ===== src/Client/Duel/Messages.antt =====
-- A message of one game at the other one: it fits into both buffers, and what it says is taken over.
use pong_pp.Common.{
  ℕ, zero, suc, ◌≤◌, ◌<◌, ◌≡◌, refl, ◌∙◌, ap, Bool, true, arith, some, List, [], ◌∷◌, ◌++◌, length,
  take, leb, if◌then◌else◌,
}
use pong_pp.Common.Int.{magnitude}
use pong_pp.Client.Wire.Bounds.{ten_to, length-message}
use pong_pp.Client.Float.{Float, IsFloat, HasBounds, exact}
use pong_pp.Client.Field.{canvas_h, paddle_h, right_x_min, right_x_max}
use pong_pp.Client.Game.{Game, clampf}
use pong_pp.Client.Peer.{send_state, send_paddle, on_peer_message}
use pong_pp.Client.Mirror.{snapshot, on_peer_message-send_state, on_peer_message-send_paddle}
use pong_pp.Client.Range.Ball.{Fits}
use pong_pp.Client.Range.Frame.{clampf_right-Bounded, clampf_y-Bounded}
use pong_pp.Client.Range.Tick.{Plays, snapshot-AllFitsInt, paddle-AllFitsInt}
use pong_pp.Client.Duel.{write_msg, peer_send}

take-all : {A : Type 0} (n : ℕ) (xs : List A) → length xs ≤ n → take n xs ≡ xs
take-all zero [] h = refl
take-all zero (x ∷ xs) h = absurd (omega arith)
take-all (suc n) [] h = refl
take-all (suc n) (x ∷ xs) h = ap (◌∷◌ x) (take-all n xs (omega arith))

write_msg-short : (text : List ℕ) → length text ≤ 97 → write_msg text ≡ text
unfolding write_msg
write_msg-short text h = take-all 255 text (omega (arith, h))

pub peer_send-short :
    (is_open : Bool) (text : List ℕ) (queue : List (List ℕ))
    → length text ≤ 97
    → peer_send is_open (some text) queue ≡ some (if is_open then queue ++ text ∷ [] else queue)
unfolding peer_send
peer_send-short is_open text queue h =
    let few : leb (length text) 128 ≡ true = ground (arith, h) in rw few refl

module _ {F : Type 0} ⦃float : Float F⦄ where
  open float use {num, sub, of_int, to_int}

  -- The guest after a snapshot, and the host after the place of a paddle.
  abbrev pub mirrored : Game F → Game F → Game F
  mirrored host guest = record guest {
    ball_x = of_int (to_int host.ball_x);
    ball_y = of_int (to_int host.ball_y);
    left_x = of_int (to_int host.left_x);
    left_y = of_int (to_int host.left_y);
    left_score = host.left_score;
    right_score = host.right_score;
  }

  abbrev pub followed : Game F → Game F → Game F
  followed guest host = record host {
    right_vx = sub (clampf (of_int (to_int guest.right_x)) right_x_min right_x_max) host.right_x;
    right_x = clampf (of_int (to_int guest.right_x)) right_x_min right_x_max;
    right_y = clampf (of_int (to_int guest.right_y)) (num 0) (sub canvas_h paddle_h);
  }

module _ {F : Type 0} ⦃float : Float F⦄ (laws : IsFloat float) (bounds : HasBounds float) where
  open float use {num, sub, of_int, to_int}
  open bounds use {Bounded, bounded_to_int, bounded_of_int, bounded_more, bounded_sub}

  -- A number cut to a whole one.
  cut-Bounded : (a : ℕ) (x : F) → a ≤ exact → Bounded a x → Bounded a (of_int (to_int x))
  cut-Bounded a x small all =
      let few = bounded_to_int a x all in
      bounded_more (magnitude (to_int x)) a _ few (bounded_of_int (to_int x) (omega arith))

  pub length-send_state :
      (k l r : ℕ) (g : Game F)
      → Plays laws bounds k l r g
      → l < ten_to 8
      → r < ten_to 8
      → length (send_state g) ≤ 97
  unfolding send_state
  length-send_state k l r g plays hl hr =
      length-message b'S' (snapshot g) (snapshot-AllFitsInt laws bounds k l r g plays hl hr)

  pub length-send_paddle :
      (k l r : ℕ) (g : Game F) → Plays laws bounds k l r g → length (send_paddle g) ≤ 97
  unfolding send_paddle
  length-send_paddle k l r g plays =
      let few =
        length-message b'P' (to_int g.right_x ∷ to_int g.right_y ∷ [])
          (paddle-AllFitsInt laws bounds k l r g plays) in
      omega arith

  pub guest_takes :
      (l r l' r' : ℕ) (host guest : Game F)
      → Plays laws bounds 0 l r host
      → l < ten_to 8
      → r < ten_to 8
      → Plays laws bounds 1 l' r' guest
      → (on_peer_message (write_msg (send_state host)) guest ≡ some (mirrored host guest))
        × Plays laws bounds 1 l r (mirrored host guest)
  unfolding Plays Fits
  guest_takes l r l' r' host guest ((rest, x, y, vx, vy), el, er) hl hr
        ((rest', x', y', vx', vy'), el', er') =
      let plays : Plays laws bounds 0 l r host = ((rest, x, y, vx, vy), el, er) in
      let (play, role, lx, ly, rx, ry, lv, rv) = rest in
      let (play', role', lx', ly', rx', ry', lv', rv') = rest' in
      (
        ap (λ text. on_peer_message text guest)
              (write_msg-short (send_state host) (length-send_state 0 l r host plays hl hr))
            ∙ on_peer_message-send_state host guest
                (snapshot-AllFitsInt laws bounds 0 l r host plays hl hr) role',
        (
          (
            (
              play',
              role',
              cut-Bounded 800 host.left_x (omega arith) lx,
              cut-Bounded 600 host.left_y (omega arith) ly,
              rx',
              ry',
              lv',
              rv',
            ),
            cut-Bounded 800 host.ball_x (omega arith) x,
            cut-Bounded 600 host.ball_y (omega arith) y,
            vx',
            vy',
          ),
          el,
          er,
        ),
      )

  pub host_takes :
      (l r l' r' : ℕ) (guest host : Game F)
      → Plays laws bounds 1 l' r' guest
      → Plays laws bounds 0 l r host
      → (on_peer_message (write_msg (send_paddle guest)) host ≡ some (followed guest host))
        × Plays laws bounds 0 l r (followed guest host)
  unfolding Plays Fits
  host_takes l r l' r' guest host ((rest', x', y', vx', vy'), el', er')
        ((rest, x, y, vx, vy), el, er) =
      let plays' : Plays laws bounds 1 l' r' guest = ((rest', x', y', vx', vy'), el', er') in
      let (play, role, lx, ly, rx, ry, lv, rv) = rest in
      let (play', role', lx', ly', rx', ry', lv', rv') = rest' in
      let new_x =
        clampf_right-Bounded laws bounds 800 _ (cut-Bounded 800 guest.right_x (omega arith) rx') in
      (
        ap (λ text. on_peer_message text host)
              (write_msg-short (send_paddle guest) (length-send_paddle 1 l' r' guest plays'))
            ∙ on_peer_message-send_paddle host guest
                (paddle-AllFitsInt laws bounds 1 l' r' guest plays') role,
        (
          (
            (
              play,
              role,
              lx,
              ly,
              new_x,
              clampf_y-Bounded laws bounds 600 _ (cut-Bounded 600 guest.right_y (omega arith) ry'),
              lv,
              bounded_sub 800 800 _ _ (omega arith) new_x rx,
            ),
            x,
            y,
            vx,
            vy,
          ),
          el,
          er,
        ),
      )
