-- ===== src/Signaling/Housed.antt =====
-- src/server/signaling: what holds of the rooms whatever the clients send, also if a player that is
-- in a room opens or joins another.
pub mod Say
pub mod Gone
use pong_pp.Common.{
  ℕ, suc, ◌<◌, ◌≡◌, ◌≢◌, refl, ◌∙◌, ap, sym, subst, Bool, true, false, ◌⊎◌, inl, inr, Bool-cases,
  Option, none, some, List, [], ◌∷◌, ◌==◌, arith, if_either, if◌then◌else◌,
}
use pong_pp.Signaling.State.{Room, Server, mem, update, expired, lock, is_none}
use pong_pp.Signaling.Rooms.{
  find_room, emplace, erase, make_room, enter_as_host, enter_as_guest, leave_room,
}
use pong_pp.Signaling.Broadcast.{find_room-erase, find_room-erase_other}
use pong_pp.Signaling.Session.{opened}
use pong_pp.Signaling.Relay.{same, differ}

-- Who is in a room lives and holds one of its two places, and the table has rooms that were made.
unfoldable pub IsHoused : Server → Type 0
IsHoused s =
    ((c a : ℕ) → find_room c s.rooms ≡ some a → a < s.next_address)
    × ((p a : ℕ) → s.room_of p ≡ some a → a < s.next_address)
    × ((p a : ℕ) → s.room_of p ≡ some a → mem p s.players ≡ true)
    × ((p a : ℕ) → s.room_of p ≡ some a → ((s.heap a).host ≡ some p) ⊎ ((s.heap a).guest ≡ some p))

-- A value of an updated function is the new one or an old one.
update_cases :
    (f : ℕ → Option ℕ) (p : ℕ) (v : Option ℕ) (q a : ℕ)
    → update f p v q ≡ some a
    → ((q ≡ p) × (v ≡ some a)) ⊎ (f q ≡ some a)
update_cases f p v q a e = ground arith

find_room-emplace_any :
    (c a code b : ℕ) (rooms : List (ℕ × ℕ))
    → find_room c (emplace code b rooms) ≡ some a
    → (a ≡ b) ⊎ (find_room c rooms ≡ some a)
unfolding find_room emplace
find_room-emplace_any c a code b rooms e = ground arith

find_room-erase_any :
    (c a code : ℕ) (rooms : List (ℕ × ℕ))
    → find_room c (erase code rooms) ≡ some a
    → find_room c rooms ≡ some a
find_room-erase_any c a code rooms e = elim (Bool-cases (c == code)) [
  | inl gone ↦
      let eq : c ≡ code = ground arith in
      absurd (
        let none_left = ap (λ i. find_room i (erase code rooms)) eq ∙ find_room-erase code rooms in
        cc)
  | inr other ↦ sym (find_room-erase_other c code rooms (ground arith)) ∙ e
]

-- A player, wherever it is, opens a room.
pub opened-IsHoused :
    (p : ℕ) (s : Server) → IsHoused s → mem p s.players ≡ true → IsHoused (opened p s)
unfolding IsHoused enter_as_host make_room
opened-IsHoused p s (listed, made, alive, place) living = (
  λ c a e. elim (find_room-emplace_any c a s.next_code s.next_address s.rooms e) [
    | inl new ↦ omega arith
    | inr old ↦ let bound = listed c a old in omega arith
  ],
  λ q a e. elim (update_cases s.room_of p (some s.next_address) q a e) [
    | inl (self, new) ↦ let at : s.next_address ≡ a = cc in omega arith
    | inr old ↦ let bound = made q a old in omega arith
  ],
  λ q a e. elim (update_cases s.room_of p (some s.next_address) q a e) [
    | inl (self, new) ↦ ap (λ x. mem x s.players) self ∙ living
    | inr old ↦ alive q a old
  ],
  λ q a e. elim (update_cases s.room_of p (some s.next_address) q a e) [
    | inl (self, new) ↦
        let at : s.next_address ≡ a = cc in
        inl (ap (λ x. ((opened p s).heap x).host) (sym at) ∙ new_host ∙ ap some (sym self))
    | inr old ↦
        let bound = made q a old in
        subst (λ (r : Room). (r.host ≡ some q) ⊎ (r.guest ≡ some q))
          (sym (other_room a (omega arith))) (place q a old)
  ],
)
  where
    new_host : ((opened p s).heap s.next_address).host ≡ some p
    new_host = rw (same s.next_address) refl

    other_room : (a : ℕ) → s.next_address ≢ a → (opened p s).heap a ≡ s.heap a
    other_room a h = rw (differ s.next_address a h) refl

lives_on : (s : Server) (q : ℕ) → mem q s.players ≡ true → expired s (some q) ≡ false
lives_on s q lives = rw lives refl

-- A player, wherever it is, takes the guest's place of a room that no living player has.
pub joined-IsHoused :
    (p a : ℕ) (s : Server)
    → IsHoused s
    → mem p s.players ≡ true
    → a < s.next_address
    → expired s (s.heap a).guest ≡ true
    → IsHoused (enter_as_guest p a s)
unfolding IsHoused enter_as_guest
joined-IsHoused p a s (listed, made, alive, place) living bound free = (
  listed,
  λ q b e. elim (update_cases s.room_of p (some a) q b e) [
    | inl (self, new) ↦ let at : a ≡ b = cc in omega arith
    | inr old ↦ made q b old
  ],
  λ q b e. elim (update_cases s.room_of p (some a) q b e) [
    | inl (self, new) ↦ ap (λ x. mem x s.players) self ∙ living
    | inr old ↦ alive q b old
  ],
  λ q b e. elim (update_cases s.room_of p (some a) q b e) [
    | inl (self, new) ↦
        let at : a ≡ b = cc in
        inr (
          ap (λ x. ((enter_as_guest p a s).heap x).guest) (sym at) ∙ new_guest ∙ ap some (sym self))
    | inr old ↦ elim (Bool-cases (b == a)) [
      | inl this ↦ stays q b (ground arith) (alive q b old) (place q b old)
      | inr other ↦
          subst (λ (r : Room). (r.host ≡ some q) ⊎ (r.guest ≡ some q))
            (sym (other_room b (ground arith))) (place q b old)
    ]
  ],
)
  where
    new_guest : ((enter_as_guest p a s).heap a).guest ≡ some p
    new_guest = rw (same a) refl

    other_room : (b : ℕ) → a ≢ b → (enter_as_guest p a s).heap b ≡ s.heap b
    other_room b h = rw (differ a b h) refl

    same_host : ((enter_as_guest p a s).heap a).host ≡ (s.heap a).host
    same_host = rw (same a) refl

    stays :
        (q b : ℕ)
        → b ≡ a
        → mem q s.players ≡ true
        → ((s.heap b).host ≡ some q) ⊎ ((s.heap b).guest ≡ some q)
        → (((enter_as_guest p a s).heap b).host ≡ some q)
          ⊎ (((enter_as_guest p a s).heap b).guest ≡ some q)
    stays q b at lives (inl host) = inl (
        ap (λ x. ((enter_as_guest p a s).heap x).host) at
        ∙ same_host
        ∙ ap (λ x. (s.heap x).host) (sym at)
        ∙ host)
    stays q b at lives (inr guest) = absurd (
        let taken : expired s (s.heap a).guest ≡ false =
          ap (expired s) (ap (λ x. (s.heap x).guest) (sym at) ∙ guest) ∙ lives_on s q lives in
        cc)

-- A player is put out of its room, or goes itself.
pub leave_room-IsHoused : (p : ℕ) (s : Server) → IsHoused s → IsHoused (leave_room p s)
unfolding IsHoused leave_room
leave_room-IsHoused p s (listed, made, alive, place) = (
  listed,
  (λ q b e. made q b (still q b e)),
  (λ q b e. alive q b (still q b e)),
  (λ q b e. place q b (still q b e)),
)
  where
    still : (q b : ℕ) → update s.room_of p none q ≡ some b → s.room_of q ≡ some b
    still q b e = elim (update_cases s.room_of p none q b e) [
      | inl (self, gone) ↦ absurd (cc)
      | inr old ↦ old
    ]

pub erased-IsHoused :
    (code : ℕ) (s : Server) → IsHoused s → IsHoused (record s { rooms = erase code s.rooms })
unfolding IsHoused
erased-IsHoused code s (listed, made, alive, place) =
    ((λ c a e. listed c a (find_room-erase_any c a code s.rooms e)), made, alive, place)
