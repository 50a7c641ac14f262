-- ===== src/Signaling/Tidy/Gone.antt =====
-- `Cleanup` keeps the table, the rooms and the players in agreement.
use pong_pp.Common.{
  ℕ, ◌≡◌, refl, ◌∙◌, ap, sym, subst, true, ◌⊎◌, inl, inr, Bool-cases, Option, none, some, List,
  ◌==◌, ◌≢◌, arith,
}
use pong_pp.Signaling.State.{Server, mem, update}
use pong_pp.Signaling.Rooms.{unregister}
use pong_pp.Signaling.Player.{other_player, cleanup, leave_for_good, peer_of}
use pong_pp.Signaling.Relay.{Occupants, Peer, other_player-Occupants, peer_of-Peer}
use pong_pp.Signaling.Session.{here, elsewhere}
use pong_pp.Signaling.Cleanup.{cleanup-shared, cleanup-alone}
use pong_pp.Signaling.Tidy.{Waiting, IsListed, IsInside, IsTidy}
use pong_pp.Signaling.Tidy.Leave.{IsPutOut, without_room, without_room-IsTidy, still_lives, lived}

-- Two different players in one room are its two occupants.
two_inside :
    (s : Server) (a p x : ℕ)
    → IsTidy s
    → s.room_of p ≡ some a
    → s.room_of x ≡ some a
    → p ≢ x
    → other_player s (s.heap a) p ≡ some x
unfolding IsTidy IsInside Occupants
two_inside s a p x tidy in_p in_x differs =
    let (lives_p, place_p, listed) = tidy.1 p a in_p in
    let (lives_x, place_x, listed') = tidy.1 x a in_x in
    other_player-Occupants s a p x (in_p, lives_x, differs, go place_p place_x)
  where
    go :
        ((s.heap a).host ≡ some p) ⊎ ((s.heap a).guest ≡ some p)
        → ((s.heap a).host ≡ some x) ⊎ ((s.heap a).guest ≡ some x)
        → (((s.heap a).host ≡ some p) × ((s.heap a).guest ≡ some x))
          ⊎ (((s.heap a).host ≡ some x) × ((s.heap a).guest ≡ some p))
    go (inl e) (inr e') = inl (e, e')
    go (inr e) (inl e') = inr (e', e)
    go (inl e) (inl e') = absurd (differs cc)
    go (inr e) (inr e') = absurd (differs cc)

some_of_put_out :
    (f : ℕ → Option ℕ) (p x b : ℕ) → update f p none x ≡ some b → (x ≢ p) × (f x ≡ some b)
some_of_put_out f p x b e = elim (Bool-cases (x == p)) [
  | inl self ↦
      let eq : x ≡ p = ground arith in
      absurd (let gone : update f p none x ≡ none = ap (update f p none) eq ∙ here f p none in cc)
  | inr other ↦
      let differs : x ≢ p = ground arith in
      (differs, sym (elsewhere f p x none (λ e. differs (sym e))) ∙ e)
]

-- The living peer of a player is in the same room.
pub peer_inside :
    (s : Server) (a p q : ℕ) → IsTidy s → s.room_of p ≡ some a → Peer s p q → s.room_of q ≡ some a
unfolding IsTidy IsListed IsInside Waiting Peer
peer_inside s a p q tidy inside (b, inside', lives, differs, place) =
    let same_room : b ≡ a = one_value inside' inside in
    let (lives_p, place_p, listed) = tidy.1 p a inside in
    let (bound, code, below, (h, host, lives_h, there), guest) = tidy.0 (s.heap a).code a listed in
    go h host there guest
      (subst (λ x. ((s.heap x).host ≡ some q) ⊎ ((s.heap x).guest ≡ some q)) same_room place)
  where
    one_value : {w : Option ℕ} {x y : ℕ} → w ≡ some x → w ≡ some y → x ≡ y
    one_value e e' = cc

    go :
        (h : ℕ)
        → (s.heap a).host ≡ some h
        → s.room_of h ≡ some a
        → ((g : ℕ) → (s.heap a).guest ≡ some g → mem g s.players ≡ true → s.room_of g ≡ some a)
        → ((s.heap a).host ≡ some q) ⊎ ((s.heap a).guest ≡ some q)
        → s.room_of q ≡ some a
    go h host there guest (inl e) = ap s.room_of (one_value e host) ∙ there
    go h host there guest (inr e) = guest q e lives

pub IsPutOut-shared :
    (s : Server) (a p q : ℕ)
    → IsTidy s
    → s.room_of p ≡ some a
    → other_player s (s.heap a) p ≡ some q
    → Peer s p q
    → IsPutOut s a p (update (update s.room_of q none) p none)
unfolding IsPutOut
IsPutOut-shared s a p q tidy inside other peer = (
  λ x b e.
      let (not_p, e') = some_of_put_out (update s.room_of q none) p x b e in
      let (not_q, was) = some_of_put_out s.room_of q x b e' in
      (was, (λ eq. not_q (only x (was ∙ ap some eq) (λ e. not_p (sym e)))), not_p),
  λ x b was differs.
      elsewhere (update s.room_of q none) p x none
        (λ e. differs (one_room x b (ap s.room_of (sym e) ∙ inside) was))
      ∙ elsewhere s.room_of q x none (λ e.
        differs (one_room x b (ap s.room_of (sym e) ∙ peer_inside s a p q tidy inside peer) was))
      ∙ was,
)
  where
    only : (x : ℕ) → s.room_of x ≡ some a → p ≢ x → x ≡ q
    only x in_x differs =
        let found : other_player s (s.heap a) p ≡ some x =
          two_inside s a p x tidy inside in_x differs in
        cc

    one_room : (x b : ℕ) → s.room_of x ≡ some a → s.room_of x ≡ some b → b ≡ a
    one_room x b e e' = cc

pub IsPutOut-alone :
    (s : Server) (a p : ℕ)
    → IsTidy s
    → s.room_of p ≡ some a
    → other_player s (s.heap a) p ≡ none
    → IsPutOut s a p (update s.room_of p none)
unfolding IsPutOut
IsPutOut-alone s a p tidy inside alone = (
  λ x b e.
      let (not_p, was) = some_of_put_out s.room_of p x b e in
      (was, (λ eq. nobody x (was ∙ ap some eq) (λ e. not_p (sym e))), not_p),
  λ x b was differs.
      elsewhere s.room_of p x none (λ e. differs (one_room x b (ap s.room_of (sym e) ∙ inside) was))
      ∙ was,
)
  where
    nobody : (x : ℕ) → s.room_of x ≡ some a → p ≢ x → ⊥
    nobody x in_x differs =
        let found : other_player s (s.heap a) p ≡ some x =
          two_inside s a p x tidy inside in_x differs in
        cc

    one_room : (x b : ℕ) → s.room_of x ≡ some a → s.room_of x ≡ some b → b ≡ a
    one_room x b e e' = cc

unregister-IsTidy : (s : Server) (p : ℕ) → IsTidy s → s.room_of p ≡ none → IsTidy (unregister p s)
unfolding IsTidy IsListed IsInside Waiting unregister
unregister-IsTidy s p tidy out = (
  λ c a e.
      let (bound, code, below, (h, host, lives, there), guest) = tidy.0 c a e in
      (
        bound,
        code,
        below,
        (
          h,
          host,
          still_lives h p s.players (λ eq. apart h a (ap s.room_of eq ∙ out) there) lives,
          there,
        ),
        λ g place alive. guest g place (lived g p s.players alive).1,
      ),
  λ x b e.
      let (lives, place, listed) = tidy.1 x b e in
      (still_lives x p s.players (λ eq. apart x b (ap s.room_of eq ∙ out) e) lives, place, listed),
)
  where
    apart : (x b : ℕ) → s.room_of x ≡ none → s.room_of x ≡ some b → ⊥
    apart x b e e' = cc

pub outside : (s : Server) (p : ℕ) → s.room_of p ≡ none → cleanup p s ≡ unregister p s
unfolding cleanup leave_for_good
outside s p e = rw (cleanup, e) refl

-- What the end of a player's connection comes to.
pub cleanup_cases :
    (P : Server → Type 0) (s : Server) (p : ℕ)
    → IsTidy s
    → (s.room_of p ≡ none → P (unregister p s))
    → ((a : ℕ) (room_of : ℕ → Option ℕ) (sent : List (ℕ × List ℕ))
        → s.room_of p ≡ some a
        → IsPutOut s a p room_of
        → P (record (without_room a p room_of s) { sent = sent }))
    → P (cleanup p s)
unfolding IsTidy IsInside peer_of
cleanup_cases P s p tidy out gave_up = go (s.room_of p) refl
  where
    go : (w : Option ℕ) → s.room_of p ≡ w → P (cleanup p s)
    go none e = subst P (sym (outside s p e)) (out e)
    go (some a) e = elim (peer_of-Peer s p (some a) e) [
      | inl alone ↦
          subst P (sym (cleanup-alone s a p a e alone (tidy.1 p a e).2))
            (gave_up a _ _ e (IsPutOut-alone s a p tidy e alone))
      | inr (q, other, peer) ↦
          subst P (sym (cleanup-shared s a p q a e other (tidy.1 p a e).2))
            (gave_up a _ _ e (IsPutOut-shared s a p q tidy e other peer))
    ]

pub cleanup-IsTidy : (s : Server) (p : ℕ) → IsTidy s → IsTidy (cleanup p s)
unfolding IsTidy IsInside IsListed Waiting
cleanup-IsTidy s p tidy =
    cleanup_cases IsTidy s p tidy (unregister-IsTidy s p tidy) (λ a room_of sent e put_out.
      without_room-IsTidy s a p room_of tidy e (tidy.1 p a e).2 put_out)
