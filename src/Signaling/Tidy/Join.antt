-- ===== src/Signaling/Tidy/Join.antt =====
-- A player that is in no room takes the guest's place of one.
use pong_pp.Common.{
  ℕ, ◌≡◌, refl, ◌∙◌, ap, sym, subst, true, false, ◌⊎◌, inl, inr, Bool-cases, none, some, ◌==◌, ◌≢◌,
  arith,
}
use pong_pp.Signaling.State.{Server, mem, expired}
use pong_pp.Signaling.Rooms.{find_room, enter_as_guest}
use pong_pp.Signaling.Session.{here, elsewhere}
use pong_pp.Signaling.Relay.{same, differ}
use pong_pp.Signaling.Tidy.{Waiting, IsListed, IsInside, IsTidy}
use pong_pp.Signaling.Tidy.Enter.{apart}

joined_this :
    (s : Server) (p c a : ℕ)
    → mem p s.players ≡ true
    → s.room_of p ≡ none
    → IsListed s c a
    → IsListed (enter_as_guest p a s) c a
unfolding IsListed Waiting enter_as_guest
joined_this s p c a alive out (bound, code, below, (h, host, lives, inside), guest) = (
  bound,
  ap (λ r. r.code) changed ∙ code,
  below,
  (
    h,
    ap (λ r. r.host) changed ∙ host,
    lives,
    elsewhere s.room_of p h (some a) (apart s p h a out inside) ∙ inside,
  ),
  λ g place lives.
      let guest_now : some p ≡ some g = sym (ap (λ r. r.guest) changed) ∙ place in
      let eq : p ≡ g = cc in
      subst (λ x. (enter_as_guest p a s).room_of x ≡ some a) eq (here s.room_of p (some a)),
)
  where
    changed : (enter_as_guest p a s).heap a ≡ record (s.heap a) { guest = some p }
    changed = rw (same a) refl

joined_other :
    (s : Server) (p a c b : ℕ)
    → a ≢ b
    → s.room_of p ≡ none
    → IsListed s c b
    → IsListed (enter_as_guest p a s) c b
unfolding IsListed Waiting enter_as_guest
joined_other s p a c b differs out (bound, code, below, (h, host, lives, inside), guest) = (
  bound,
  ap (λ r. r.code) same_room ∙ code,
  below,
  (
    h,
    ap (λ r. r.host) same_room ∙ host,
    lives,
    elsewhere s.room_of p h (some a) (apart s p h b out inside) ∙ inside,
  ),
  λ g place alive.
      let stays = guest g (sym (ap (λ r. r.guest) same_room) ∙ place) alive in
      elsewhere s.room_of p g (some a) (apart s p g b out stays) ∙ stays,
)
  where
    same_room : (enter_as_guest p a s).heap b ≡ s.heap b
    same_room = rw (differ a b differs) refl

pub kept_code : (s : Server) (p a b : ℕ) → ((enter_as_guest p a s).heap b).code ≡ (s.heap b).code
unfolding enter_as_guest
kept_code s p a b = elim (Bool-cases (b == a)) [
  | inl e ↦ let eq : b ≡ a = ground arith in rw (eq, same a) refl
  | inr e ↦ rw e refl
]

-- A player that lives does not lose its place: the guest's place is free.
kept_place :
    (s : Server) (p a q b : ℕ)
    → expired s (s.heap a).guest ≡ true
    → mem q s.players ≡ true
    → ((s.heap b).host ≡ some q) ⊎ ((s.heap b).guest ≡ some q)
    → (((enter_as_guest p a s).heap b).host ≡ some q)
      ⊎ (((enter_as_guest p a s).heap b).guest ≡ some q)
unfolding enter_as_guest
kept_place s p a q b free alive place = elim (Bool-cases (b == a)) [
  | inr e ↦ rw e place
  | inl e ↦
      let eq : b ≡ a = ground arith in
      rw (eq, same a)
        (go (subst (λ x. ((s.heap x).host ≡ some q) ⊎ ((s.heap x).guest ≡ some q)) eq place))
]
  where
    go :
        ((s.heap a).host ≡ some q) ⊎ ((s.heap a).guest ≡ some q)
        → ((s.heap a).host ≡ some q) ⊎ (some p ≡ some q)
    go (inl host) = inl host
    go (inr guest) = absurd (
        let taken : expired s (some q) ≡ true = ap (expired s) (sym guest) ∙ free in
        let living : expired s (some q) ≡ false = rw alive refl in cc)

-- A listed room whose guest's place is free, and a player that is in none.
pub joined-IsTidy :
    (s : Server) (p c a : ℕ)
    → IsTidy s
    → find_room c s.rooms ≡ some a
    → expired s (s.heap a).guest ≡ true
    → mem p s.players ≡ true
    → s.room_of p ≡ none
    → IsTidy (enter_as_guest p a s)
unfolding IsTidy IsInside IsListed enter_as_guest
joined-IsTidy s p c a tidy found free alive out = (listed, inside)
  where
    listed : (d b : ℕ) → find_room d s.rooms ≡ some b → IsListed (enter_as_guest p a s) d b
    listed d b e = elim (Bool-cases (b == a)) [
      | inl same_room ↦
          let eq : a ≡ b = ground arith in
          subst (λ x. IsListed (enter_as_guest p x s) d b) (sym eq)
            (joined_this s p d b alive out (tidy.0 d b e))
      | inr other ↦ joined_other s p a d b (ground arith) out (tidy.0 d b e)
    ]

    inside :
        (q b : ℕ) → (enter_as_guest p a s).room_of q ≡ some b → IsInside (enter_as_guest p a s) q b
    inside q b e = elim (Bool-cases (q == p)) [
      | inl self ↦
          let eq : q ≡ p = ground arith in
          let eb : a ≡ b = cc in
          rw (eq, ← eb)
            (
              alive,
              inr (rw (same a) refl),
              ap (λ x. find_room x s.rooms) (kept_code s p a a ∙ (tidy.0 c a found).1) ∙ found,
            )
      | inr other ↦
          let (lives, place, listed) =
            tidy.1 q b (sym (elsewhere s.room_of p q (some a) (ground arith)) ∙ e) in
          (
            lives,
            kept_place s p a q b free lives place,
            ap (λ x. find_room x s.rooms) (kept_code s p a b) ∙ listed,
          )
    ]
