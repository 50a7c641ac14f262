-- ===== src/Signaling/Tidy/Enter.antt =====
-- A player that is in no room opens one.
use pong_pp.Common.{
  ℕ, ◌+◌, ◌^◌, ◌<◌, ◌≡◌, refl, ◌∙◌, ap, sym, subst, true, ◌⊎◌, inl, inr, Bool-cases, Option, none,
  some, ◌==◌, ◌≢◌, arith,
}
use pong_pp.Signaling.State.{Server, mem}
use pong_pp.Signaling.Rooms.{find_room, emplace, make_room, enter_as_host}
use pong_pp.Signaling.Session.{here, elsewhere, opened, find_room-emplace, find_room-emplace_other}
use pong_pp.Signaling.Relay.{same, differ}
use pong_pp.Signaling.Tidy.{Waiting, IsListed, IsInside, IsTidy}

-- The next code is in no entry of the table.
pub next_code_unused : (s : Server) → IsTidy s → find_room s.next_code s.rooms ≡ none
unfolding IsTidy IsListed
next_code_unused s tidy = go (find_room s.next_code s.rooms) refl
  where
    go : (r : Option ℕ) → find_room s.next_code s.rooms ≡ r → r ≡ none
    go none e = refl
    go (some a) e =
        absurd (let (bound, code, small, host, guest) = tidy.0 s.next_code a e in omega arith)

-- Who is in a room is not the one that is in none.
pub apart : (s : Server) (p h a : ℕ) → s.room_of p ≡ none → s.room_of h ≡ some a → p ≢ h
apart s p h a out inside e = absurd (cc)

opened_old :
    (s : Server) (p c a : ℕ)
    → s.next_code + 1 < 2 ^ 64
    → s.room_of p ≡ none
    → IsListed s c a
    → IsListed (opened p s) c a
unfolding IsListed Waiting enter_as_host make_room
opened_old s p c a small out (bound, code, below, (h, host, lives, inside), guest) = (
  omega arith,
  ap (λ r. r.code) same_room ∙ code,
  omega arith,
  (
    h,
    ap (λ r. r.host) same_room ∙ host,
    lives,
    elsewhere s.room_of p h (some s.next_address) (apart s p h a out inside) ∙ inside,
  ),
  λ g place alive.
      let stays = guest g (sym (ap (λ r. r.guest) same_room) ∙ place) alive in
      elsewhere s.room_of p g (some s.next_address) (apart s p g a out stays) ∙ stays,
)
  where
    old : s.next_address ≢ a
    old = omega arith

    same_room : (opened p s).heap a ≡ s.heap a
    same_room = rw (differ s.next_address a old) refl

opened_new :
    (s : Server) (p : ℕ)
    → s.next_code + 1 < 2 ^ 64
    → mem p s.players ≡ true
    → IsListed (opened p s) s.next_code s.next_address
unfolding IsListed Waiting enter_as_host make_room
opened_new s p small alive = (
  omega arith,
  ap (λ r. r.code) new_room,
  omega arith,
  (p, ap (λ r. r.host) new_room, alive, here s.room_of p (some s.next_address)),
  λ g place lives. absurd (nobody g (sym (ap (λ r. r.guest) new_room) ∙ place)),
)
  where
    new_room :
        (opened p s).heap s.next_address
        ≡ record { code = s.next_code; host = some p; guest = none }
    new_room = rw (same s.next_address) refl

    nobody : (g : ℕ) → none ≢ some g
    nobody g e = cc

pub listed_cases :
    (s : Server) (c a : ℕ)
    → find_room s.next_code s.rooms ≡ none
    → find_room c (emplace s.next_code s.next_address s.rooms) ≡ some a
    → ((c ≡ s.next_code) × (a ≡ s.next_address)) ⊎ (find_room c s.rooms ≡ some a)
listed_cases s c a fresh e = elim (Bool-cases (c == s.next_code)) [
  | inl same_code ↦
      let eq : c ≡ s.next_code = ground arith in
      inl (
        eq,
        some_inj (
            sym e
            ∙ ap (λ x. find_room x (emplace s.next_code s.next_address s.rooms)) eq
            ∙ find_room-emplace s.next_code s.next_address s.rooms fresh),
      )
  | inr other ↦
      inr (sym (find_room-emplace_other c s.next_code s.next_address s.rooms (ground arith)) ∙ e)
]
  where
    some_inj : {x y : ℕ} → some x ≡ some y → x ≡ y
    some_inj e = cc

opened-IsInside_old :
    (s : Server) (p q a : ℕ)
    → IsTidy s
    → s.next_code + 1 < 2 ^ 64
    → s.room_of q ≡ some a
    → IsInside (opened p s) q a
unfolding IsTidy IsInside IsListed enter_as_host make_room
opened-IsInside_old s p q a tidy small e =
    let (alive, place, listed) = tidy.1 q a e in
    let (bound, code, below, host, guest) = tidy.0 (s.heap a).code a listed in
    (
      alive,
      subst (λ r. (r.host ≡ some q) ⊎ (r.guest ≡ some q)) (sym (same_room bound)) place,
      ap (λ r. find_room r.code (opened p s).rooms) (same_room bound)
          ∙ find_room-emplace_other (s.heap a).code s.next_code s.next_address s.rooms (omega arith)
          ∙ listed,
    )
  where
    same_room : a < s.next_address → (opened p s).heap a ≡ s.heap a
    same_room bound = rw (differ s.next_address a (omega arith)) refl

opened-IsInside_new :
    (s : Server) (p : ℕ)
    → IsTidy s
    → mem p s.players ≡ true
    → IsInside (opened p s) p s.next_address
unfolding IsTidy IsInside enter_as_host make_room
opened-IsInside_new s p tidy alive = (
  alive,
  inl (ap (λ r. r.host) new_room),
  ap (λ r. find_room r.code (opened p s).rooms) new_room
      ∙ find_room-emplace s.next_code s.next_address s.rooms (next_code_unused s tidy),
)
  where
    new_room :
        (opened p s).heap s.next_address
        ≡ record { code = s.next_code; host = some p; guest = none }
    new_room = rw (same s.next_address) refl

-- A new room of a player that is in none.
pub opened-IsTidy :
    (s : Server) (p : ℕ)
    → IsTidy s
    → s.next_code + 1 < 2 ^ 64
    → mem p s.players ≡ true
    → s.room_of p ≡ none
    → IsTidy (opened p s)
unfolding IsTidy enter_as_host make_room
opened-IsTidy s p tidy small alive out = (listed, inside)
  where
    listed : (c a : ℕ) → find_room c (opened p s).rooms ≡ some a → IsListed (opened p s) c a
    listed c a e = elim (listed_cases s c a (next_code_unused s tidy) e) [
      | inl (ec, ea) ↦ rw (ec, ea) (opened_new s p small alive)
      | inr old ↦ opened_old s p c a small out (tidy.0 c a old)
    ]

    inside : (q a : ℕ) → (opened p s).room_of q ≡ some a → IsInside (opened p s) q a
    inside q a e = elim (Bool-cases (q == p)) [
      | inl self ↦
          let eq : q ≡ p = ground arith in
          let ea : s.next_address ≡ a = cc in rw (eq, ← ea) (opened-IsInside_new s p tidy alive)
      | inr other ↦
          opened-IsInside_old s p q a tidy small
            (sym (elsewhere s.room_of p q (some s.next_address) (ground arith)) ∙ e)
    ]
