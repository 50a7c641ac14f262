-- ===== src/Signaling/Lobby/Taken.antt =====
-- Where JOIN is refused, nobody is alone in the room.
use pong_pp.Common.{
  ℕ, ◌≡◌, refl, ◌∙◌, ap, sym, subst, true, false, ◌⊎◌, inl, inr, Bool-cases, Option, none, some,
  ◌≢◌, arith,
}
use pong_pp.Signaling.State.{Server, mem, expired}
use pong_pp.Signaling.Rooms.{find_room}
use pong_pp.Signaling.Relay.{differ}
use pong_pp.Signaling.Tidy.{Waiting, IsListed, IsInside, IsTidy}
use pong_pp.Signaling.Tidy.Reach.{Reachable, Reachable-IsTidy}
use pong_pp.Signaling.Lobby.{IsTaken, code_of, lobby}
use pong_pp.Signaling.Lobby.Rooms.{room-listed}
use pong_pp.Signaling.Lobby.Paired.{HasTwo, IsPaired, Reachable-IsPaired}

-- The guest of a room that is not free.
guest_of :
    (s : Server) (w : Option ℕ)
    → expired s w ≡ false
    → (g : ℕ) × (w ≡ some g) × (mem g s.players ≡ true)
guest_of s none e = cc
guest_of s (some g) e = elim (Bool-cases (mem g s.players)) [
  | inl lives ↦ (g, refl, lives)
  | inr gone ↦ absurd (let free : expired s (some g) ≡ true = rw gone refl in cc)
]

one_value : {w : Option ℕ} {x y : ℕ} → w ≡ some x → w ≡ some y → x ≡ y
one_value e e' = cc

-- A code that no room has, and one whose room has a guest who lives.
pub unused-IsTaken :
    (s : Server) (c : ℕ) → IsTidy s → find_room c s.rooms ≡ none → IsTaken (lobby s) c
unused-IsTaken s c tidy e x inside =
    let (a, there, found) = room-listed s x c tidy inside in absurd cc

pub zero-IsTaken : {s : Server} → Reachable s → IsTaken (lobby s) 0
unfolding IsPaired
zero-IsTaken {s} reached x inside =
    let (a, there, found) = room-listed s x 0 (Reachable-IsTidy reached) inside in
    absurd (let some_code = ((Reachable-IsPaired reached).1 0 a found).0 in omega arith)

pub full-IsTaken :
    {s : Server} (c a : ℕ)
    → Reachable s
    → find_room c s.rooms ≡ some a
    → expired s (s.heap a).guest ≡ false
    → IsTaken (lobby s) c
unfolding IsPaired HasTwo IsTidy IsListed IsInside Waiting
full-IsTaken {s} c a reached found full x inside =
    let tidy = Reachable-IsTidy reached in
    let (some_code, two) = (Reachable-IsPaired reached).1 c a found in
    let (bound, code, below, (h, host, lives, there), guest_in) = tidy.0 c a found in
    let (g, guest, alive) = guest_of s (s.heap a).guest full in
    let (b, in_b, found') = room-listed s x c tidy inside in
    let (lives', place, listed) = tidy.1 x b in_b in
    go h g host guest (two h g host guest alive) (ap (code_of s) there ∙ ap some code)
      (ap (code_of s) (guest_in g guest alive) ∙ ap some code)
      (subst (λ r. ((s.heap r).host ≡ some x) ⊎ ((s.heap r).guest ≡ some x))
        (one_value found' found) place)
  where
    go :
        (h g : ℕ)
        → (s.heap a).host ≡ some h
        → (s.heap a).guest ≡ some g
        → h ≢ g
        → (lobby s).room h ≡ some c
        → (lobby s).room g ≡ some c
        → ((s.heap a).host ≡ some x) ⊎ ((s.heap a).guest ≡ some x)
        → (y : ℕ) × (y ≢ x) × ((lobby s).room y ≡ some c)
    go h g host guest differ in_h in_g (inl e) =
        (g, (λ eq. differ (one_value host e ∙ sym eq)), in_g)
    go h g host guest differ in_h in_g (inr e) = (h, (λ eq. differ (eq ∙ one_value e guest)), in_h)
